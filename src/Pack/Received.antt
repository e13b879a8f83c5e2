-- ===== src/Pack/Received.antt =====
-- src/pack.rs: what the results of the workers become in the file.
use rust_u4pak.Common.{
  ℕ, ◌+◌, ◌^◌, ◌<◌, ◌≤◌, ◌≡◌, ◌∙◌, refl, sym, ap, arith, true, false, List, [], All, ◌∷◌, ◌++◌,
  append_assoc, append-nil, Bytes, length, length-append, length-replicate, replicate, map,
}
use rust_u4pak.Io.{Result, done}
use rust_u4pak.Results.{◌>>=◌}
use rust_u4pak.Crypto.{Sha1Hasher, Zlib}
use rust_u4pak.Record.{Record, move_to}
use rust_u4pak.Index.Legacy.{standard}
use rust_u4pak.Pack.Worker.{Outgoing, sent}
use rust_u4pak.Pack.Archive.{inline_writer, Written, receive}
use rust_u4pak.Pack.Sent.{IsSent}
use rust_u4pak.Pack.Placed.{length-header, append_record-IsSent}

written_eq :
    {out out' : Bytes} {records records' : List Record}
    → out ≡ out'
    → records ≡ records'
    → ◌≡◌ {A = Result Written}
        (done (record { out = out; data_size = length out; records = records }))
        (done (record { out = out'; data_size = length out'; records = records' }))
written_eq e e' = rw (e, e')

-- What a worker sent for a file: the record, the data, and the file's content.
pub record Item : Type 0 where
  pub packed : Record
  pub out : Bytes
  pub content : Bytes

abbrev pub sent_item : Item → Outgoing
sent_item i = sent i.packed i.out

abbrev pub total : List Item → ℕ
total [] = 0
total (i ∷ items) = length i.out + total items

-- The records of a file and the items, one for one.
abbrev pub Each : (Bytes → Record → Item → Type 0) → Bytes → List Record → List Item → Type 0
Each P file [] [] = Unit
Each P file (r ∷ records) (i ∷ items) = P file r i × Each P file records items
Each P file _ _ = false ≡ true

module _ (sha : Sha1Hasher) (zlib : Zlib) (version : ℕ) where
  abbrev pub IsItem : Item → Type 0
  IsItem i = IsSent sha zlib version i.packed i.out i.content

  module _ (write : Record → Bytes) (writer : inline_writer standard version ≡ done write) where
    -- The bytes that an item becomes.
    abbrev placed : (w : Written) (i : Item) → IsItem i → Bytes
    placed w i sends = write (move_to version (length w.out) i.packed) ++ sends.body

    abbrev after : (w : Written) (i : Item) → IsItem i → Written
    after w i sends = record {
      out = w.out ++ placed w i sends;
      data_size = length (w.out ++ placed w i sends);
      records = w.records ++ move_to version (length w.out) i.packed ∷ [];
    }

    length-placed :
        (w : Written) (i : Item) (sends : IsItem i) → length (placed w i sends) ≡ length i.out
    length-placed w i sends =
        length-append (write (move_to version (length w.out) i.packed)) sends.body
        ∙ ap (λ n. n + length sends.body)
            (length-header version write writer sha zlib i.packed sends (length w.out))
        ∙ sym (
            ap length sends.out_is
            ∙ length-append (replicate sends.header 0) sends.body
            ∙ ap (λ n. n + length sends.body) (length-replicate {A = ℕ} sends.header 0))

    length-placed_file :
        (w : Written) (i : Item) (sends : IsItem i) (tail back : Bytes)
        → length (
            w.out
            ++ (write (move_to version (length w.out) i.packed) ++ (sends.body ++ (tail ++ back))))
          ≡ length w.out + (length (placed w i sends) + (length tail + length back))
    length-placed_file w i sends tail back =
        let head = write (move_to version (length w.out) i.packed) in
        omega (
          arith,
          length-append w.out (head ++ (sends.body ++ (tail ++ back))),
          length-append head (sends.body ++ (tail ++ back)),
          length-append sends.body (tail ++ back),
          length-append tail back,
          length-append head sends.body,
        )

    -- What holds of a record with its header and data at any place that ends before `end`.
    module _ (P : Bytes → Record → Item → Type 0) (end : ℕ)
        (holds : (front back : Bytes) (i : Item) (sends : IsItem i)
          → let moved = move_to version (length front) i.packed in
            length front + (length (write moved) + length sends.body) ≤ end
            → length (front ++ (write moved ++ (sends.body ++ back))) < 2 ^ 63
            → P (front ++ (write moved ++ (sends.body ++ back))) moved i) where
      Each-step :
          (w : Written) (i : Item) (sends : IsItem i) (new : List Record) (tail back : Bytes)
          (items : List Item)
          → P
              (w.out
                ++ (write (move_to version (length w.out) i.packed)
                    ++ (sends.body ++ (tail ++ back))))
              (move_to version (length w.out) i.packed)
              i
          → Each P ((w.out ++ placed w i sends) ++ (tail ++ back)) new items
          → Each P
              (w.out ++ ((placed w i sends ++ tail) ++ back))
              (move_to version (length w.out) i.packed ∷ new)
              (i ∷ items)
      Each-step w i sends new tail back items here others =
          let head = write (move_to version (length w.out) i.packed) in
          let same : w.out ++ (head ++ (sends.body ++ (tail ++ back)))
              ≡ w.out ++ ((placed w i sends ++ tail) ++ back) =
            simp append_assoc in
          let next : (w.out ++ placed w i sends) ++ (tail ++ back)
              ≡ w.out ++ ((placed w i sends ++ tail) ++ back) =
            simp append_assoc in
          (
            coe 0 1 (k. P (same k) (move_to version (length w.out) i.packed) i) here,
            coe 0 1 (k. Each P (next k) new items) others,
          )

      -- The results of the workers for some files are all received, in any order of the files, and
      -- the new records stand for them one for one, with any bytes behind the data.
      pub receive-Each :
          (items : List Item) (w : Written) (back : Bytes)
          → All IsItem items
          → w.data_size ≡ length w.out
          → length w.out + (total items + length back) < 2 ^ 63
          → length w.out + total items ≤ end
          → (new : List Record) × (tail : Bytes) × (receive write version w (map sent_item items)
              ≡ done (record {
                out = w.out ++ tail;
                data_size = length (w.out ++ tail);
                records = w.records ++ new;
              }))
            × (length tail ≡ total items)
            × Each P (w.out ++ (tail ++ back)) new items
      unfolding receive
      receive-Each [] w back sends size_is fits within = (
        [],
        [],
        rw (append-nil, append-nil) (ap (λ n. done (record w { data_size = n })) size_is),
        refl,
        tt,
      )
      receive-Each (i ∷ items) w back (sends, others) size_is fits within =
          let place = placed w i sends in
          let size = length-placed w i sends in
          let next = after w i sends in
          let step =
            append_record-IsSent version write writer sha zlib w i.packed sends size_is
              (omega arith) in
          let (new, tail, e, tail_size, later) =
            receive-Each items next back others refl
              (omega (arith, fits, size, length-append w.out place))
              (omega (arith, within, size, length-append w.out place)) in
          let here =
            holds w.out (tail ++ back) i sends
              (omega (
                arith,
                within,
                size,
                length-append (write (move_to version (length w.out) i.packed)) sends.body,
              ))
              (omega (arith, fits, size, tail_size, length-placed_file w i sends tail back)) in
          (
            move_to version (length w.out) i.packed ∷ new,
            place ++ tail,
            rw (step, ◌>>=◌)
                (e
                  ∙ written_eq (append_assoc w.out place tail)
                      (append_assoc w.records (move_to version (length w.out) i.packed ∷ []) new)),
            omega (arith, size, tail_size, length-append place tail),
            Each-step w i sends new tail back items here later,
          )
