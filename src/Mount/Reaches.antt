-- ===== src/Mount/Reaches.antt =====
-- src/mount.rs: where the components of a path lead.
use rust_u4pak.Common.{ℕ, ◌≡◌, refl, ap, append_assoc, some, List, [], ◌∷◌, ◌++◌}
use rust_u4pak.Text.{Text}
use rust_u4pak.Mount.Inode.{INode, FileData, file, dir, Children, child, node_at}
use rust_u4pak.Mount.Invariant.{Extends}

abbrev pub Exists : List INode → ℕ → Type 0
Exists nodes i = (n : INode) × (node_at nodes i ≡ some n)

-- The entry `name` of the directory `p` is `c`.
pub record IsEntry (nodes : List INode) (p : ℕ) (name : Text) (c : ℕ) : Type 0 where
  pub node : INode
  pub children : Children
  pub at : node_at nodes p ≡ some node
  pub is_dir : node.contents ≡ dir children
  pub entry : child children name ≡ some c

abbrev pub Reaches : List INode → ℕ → List Text → ℕ → Type 0
Reaches nodes p [] d = p ≡ d
Reaches nodes p (name ∷ names) d = (c : ℕ) × IsEntry nodes p name c × Reaches nodes c names d

pub Exists-Extends : (a b : List INode) → Extends a b → (i : ℕ) → Exists a i → Exists b i
Exists-Extends a b f i (n, h) = let (n', h', grows) = f i n h in (n', h')

pub IsEntry-Extends :
    (a b : List INode)
    → Extends a b
    → (p : ℕ) (name : Text) (c : ℕ) → IsEntry a p name c
    → IsEntry b p name c
IsEntry-Extends a b f p name c e =
    let (n', h', grows) = f p e.node e.at in
    let (ds, is', keep) = grows.of_dir e.children e.is_dir in
    record { node = n'; children = ds; at = h'; is_dir = is'; entry = keep name c e.entry }

pub Reaches-Extends :
    (a b : List INode)
    → Extends a b
    → (p : ℕ) (names : List Text) (d : ℕ) → Reaches a p names d
    → Reaches b p names d
Reaches-Extends a b f p [] d h = h
Reaches-Extends a b f p (name ∷ names) d (c, e, rest) =
    (c, IsEntry-Extends a b f p name c e, Reaches-Extends a b f c names d rest)

-- A path and a component behind it.
pub Reaches-snoc :
    (nodes : List INode) (p : ℕ) (names : List Text) (q : ℕ) (name : Text) (d : ℕ)
    → Reaches nodes p names q
    → IsEntry nodes q name d
    → Reaches nodes p (names ++ (name ∷ [])) d
Reaches-snoc nodes p [] q name d h e = (d, rw h e, refl)
Reaches-snoc nodes p (n ∷ names) q name d (c, first, rest) e =
    (c, first, Reaches-snoc nodes c names q name d rest e)

abbrev pub IsFileAt : List INode → ℕ → Type 0
IsFileAt nodes p = (n : INode) × (f : FileData) × (node_at nodes p ≡ some n) × (n.contents ≡ file f)

-- A file stands where the path needs a directory.
pub record IsBlocked (nodes : List INode) (p : ℕ) (names : List Text) : Type 0 where
  pub before : List Text
  pub next : Text
  pub behind : List Text
  pub number : ℕ
  pub path_is : names ≡ before ++ (next ∷ behind)
  pub way : Reaches nodes p before number
  pub at_file : IsFileAt nodes number

pub IsBlocked-cons :
    (nodes : List INode) (p c : ℕ) (name : Text) (names : List Text)
    → IsEntry nodes p name c
    → IsBlocked nodes c names
    → IsBlocked nodes p (name ∷ names)
IsBlocked-cons nodes p c name names entry b = record {
  before = name ∷ b.before;
  next = b.next;
  behind = b.behind;
  number = b.number;
  path_is = ap (◌∷◌ name) b.path_is;
  way = (c, entry, b.way);
  at_file = b.at_file;
}

pub IsBlocked-append :
    (nodes : List INode) (p : ℕ) (names more : List Text)
    → IsBlocked nodes p names
    → IsBlocked nodes p (names ++ more)
IsBlocked-append nodes p names more b = record {
  before = b.before;
  next = b.next;
  behind = b.behind ++ more;
  number = b.number;
  path_is = rw b.path_is (append_assoc b.before (b.next ∷ b.behind) more);
  way = b.way;
  at_file = b.at_file;
}
