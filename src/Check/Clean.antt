-- ===== src/Check/Clean.antt =====
-- src/check.rs: what is so of each stage of `check` when it returns 0.
use rust_u4pak.Common.{
  ℕ, ◌+◌, ◌≤◌, ◌≡◌, ◌∙◌, refl, sym, ap, arith, Bool-cases, inl, inr, Option, none, some, List, [],
  ◌∷◌, ltb, Bytes, length,
}
use rust_u4pak.Io.{Error, Result, done, failed, Reader}
use rust_u4pak.Results.{◌>>=◌, >>=-eq-done}
use rust_u4pak.Crypto.{Sha1Hasher}
use rust_u4pak.Record.{Record}
use rust_u4pak.Pak.{Pak}
use rust_u4pak.Filter.{Filter, non_visited_paths}
use rust_u4pak.Check.Defs.{check_data, record_reader}
use rust_u4pak.Check.Whole.{
  CheckOptions, enqueue, all_errors, receive_errors, not_found, selected, index_errors, check,
}

nil_of_length : {A : Type 0} (xs : List A) → length xs ≡ 0 → xs ≡ []
nil_of_length [] h = refl
nil_of_length (x ∷ xs) h = absurd (omega arith)

module _ (sha : Sha1Hasher) (options : CheckOptions) (pak : Pak) (file : Bytes)
    (read_record : Bytes → Reader Record) where
  -- What is received makes the number of errors larger.
  receive_errors-eq-done :
      (errors : List Error) (n m : ℕ)
      → receive_errors sha options pak file errors n ≡ done m
      → m ≡ n + length errors
  unfolding receive_errors
  receive_errors-eq-done [] n m h = let same : n ≡ m = cc in omega (arith, same)
  receive_errors-eq-done (e ∷ errors) n m h = elim (Bool-cases options.abort_on_error) [
    | inl stops ↦ absurd (let clash = rw stops at h in cc)
    | inr goes_on ↦ omega (arith, receive_errors-eq-done errors (n + 1) m (rw goes_on at h))
  ]

  not_found-eq-done :
      (o : Option Filter) (n m : ℕ) → not_found sha options pak file o n ≡ done m → n ≤ m
  unfolding not_found
  not_found-eq-done none n m h = let same : n ≡ m = cc in omega (arith, same)
  not_found-eq-done (some f) n m h = elim (Bool-cases (ltb 0 (length (non_visited_paths f)))) [
    | inr all_found ↦ let h' = rw all_found at h in let same : n ≡ m = cc in omega (arith, same)
    | inl missing ↦ elim (Bool-cases options.abort_on_error) [
      | inl stops ↦ absurd (let h' = rw missing at h in let clash = rw stops at h' in cc)
      | inr goes_on ↦
          let h' = rw missing at h in
          let h'' = rw goes_on at h' in
          let same : n + length (non_visited_paths f) ≡ m = cc in omega (arith, same)
    ]
  ]

  index_errors-zero :
      (m : Result {0} Unit) → index_errors sha options pak file m ≡ done 0 → m ≡ done tt
  index_errors-zero (done u) h = refl
  index_errors-zero (failed e) h = elim (Bool-cases options.abort_on_error) [
    | inl stops ↦ absurd (let clash = rw stops at h in cc)
    | inr goes_on ↦
        absurd (let clash = rw goes_on at h in let one : ◌≡◌ {A = ℕ} 1 0 = cc in omega (arith, one))
  ]

  -- Every path that is asked for was found.
  abbrev pub AllFound : Option Filter → Type 0
  AllFound none = Unit
  AllFound (some f) = non_visited_paths f ≡ []

  not_found-AllFound :
      (o : Option Filter) → not_found sha options pak file o 0 ≡ done 0 → AllFound o
  unfolding not_found
  not_found-AllFound none h = tt
  not_found-AllFound (some f) h = elim (Bool-cases (ltb 0 (length (non_visited_paths f)))) [
    | inr all_found ↦ nil_of_length (non_visited_paths f) (ground (arith, all_found))
    | inl missing ↦ elim (Bool-cases options.abort_on_error) [
      | inl stops ↦ absurd (let h' = rw missing at h in let clash = rw stops at h' in cc)
      | inr goes_on ↦
          let h' = rw missing at h in
          let h'' = rw goes_on at h' in
          let same : 0 + length (non_visited_paths f) ≡ 0 = cc in
          nil_of_length (non_visited_paths f) (omega (arith, same))
    ]
  ]

  AllFound-not_found :
      (o : Option Filter) → AllFound o → not_found sha options pak file o 0 ≡ done 0
  unfolding not_found
  AllFound-not_found none h = refl
  AllFound-not_found (some f) h = rw h refl

  -- What each stage of `check` comes to when it finds nothing.
  pub record IsPassed (threads : List (List Record)) : Type 0 where
    pub index :
        check_data sha options.ignore_null_checksums file pak.index_offset pak.index_size
          pak.index_sha1
        ≡ done tt
    pub repeated :
        enqueue options.abort_on_error [] (selected sha options pak file options.paths).0 ≡ done 0
    pub sent : all_errors sha options pak file read_record threads ≡ done []
    pub found : AllFound (selected sha options pak file options.paths).1

  no_errors :
      (index : Result {0} Unit) (in_index repeated error_count : ℕ) (errors : List Error)
      (o : Option Filter)
      → index_errors sha options pak file index ≡ done in_index
      → receive_errors sha options pak file errors (in_index + repeated) ≡ done error_count
      → not_found sha options pak file o error_count ≡ done 0
      → (index ≡ done tt) × (repeated ≡ 0) × (errors ≡ []) × AllFound o
  no_errors index in_index repeated error_count errors o index_is received found =
      let total = receive_errors-eq-done errors (in_index + repeated) error_count received in
      let none_found = not_found-eq-done o error_count 0 found in
      let in_order : in_index ≡ 0 = omega (arith, total, none_found) in
      let counted : error_count ≡ 0 = omega (arith, none_found) in
      (
        index_errors-zero index (index_is ∙ ap done in_order),
        omega (arith, total, none_found),
        nil_of_length errors (omega (arith, total, none_found)),
        not_found-AllFound o (rw counted at found),
      )

  pub check-IsPassed :
      (threads : List (List Record))
      → check sha options pak file threads ≡ done 0
      → record_reader options.variant pak.version ≡ done read_record
      → IsPassed threads
  unfolding check
  check-IsPassed threads h reader =
      let index =
        check_data sha options.ignore_null_checksums file pak.index_offset pak.index_size
          pak.index_sha1 in
      let (records, filter) = selected sha options pak file options.paths in
      let (in_index, index_is, h1) = >>=-eq-done (index_errors sha options pak file index) _ h in
      let (reads, reader', h2) = >>=-eq-done (record_reader options.variant pak.version) _ h1 in
      let same : reads ≡ read_record = (let same = sym reader' ∙ reader in cc) in
      let (repeated, repeated_is, h3) =
        >>=-eq-done (enqueue options.abort_on_error [] records) _ h2 in
      let (errors, errors_are, h4) =
        >>=-eq-done (all_errors sha options pak file reads threads) _ h3 in
      let (error_count, received, h5) =
        >>=-eq-done (receive_errors sha options pak file errors (in_index + repeated)) _ h4 in
      let (in_order, none_repeated, none_sent, found) =
        no_errors index in_index repeated error_count errors filter index_is received h5 in
      record {
        index = in_order;
        repeated = repeated_is ∙ ap done none_repeated;
        sent =
            ap (λ reads. all_errors sha options pak file reads threads) (sym same)
            ∙ errors_are
            ∙ ap done none_sent;
        found = found;
      }

  pub IsPassed-check :
      (threads : List (List Record))
      → record_reader options.variant pak.version ≡ done read_record
      → IsPassed threads
      → check sha options pak file threads ≡ done 0
  unfolding check receive_errors
  IsPassed-check threads reader passed =
      rw (passed.index, ◌>>=◌)
        (rw (reader, ◌>>=◌)
          (rw (passed.repeated, ◌>>=◌)
            (rw (passed.sent, ◌>>=◌)
              (AllFound-not_found (selected sha options pak file options.paths).1 passed.found))))
