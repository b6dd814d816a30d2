-- ===== src/Disk.antt =====
-- The files of the host, as an association list from paths to files.
use douglas.Base.{
  ℕ, ◌≡◌, refl, String, Bool, false, Option, none, some, List, [], ◌∷◌, arith, if◌then◌else◌,
  Bool-cases, inl, inr,
}
use douglas.Text.{Text}
use douglas.Paths.{FilePath, same_path, same_path_refl, same_path_sound}

pub record File : Type 0 where
  pub contents : List ℕ
  pub owner : String
  pub group : String
  pub executable_by_owner : Bool
  pub executable_by_group : Bool

abbrev pub Disk : Type 0
Disk = List (FilePath × File)

unfoldable pub lookup : FilePath → Disk → Option File
lookup p [] = none
lookup p ((q, f) ∷ d) = let rest = lookup p d in if same_path q p then some f else rest

unfoldable pub remove : FilePath → Disk → Disk
remove p [] = []
remove p ((q, f) ∷ d) = let rest = remove p d in if same_path q p then rest else (q, f) ∷ rest

abbrev pub put : FilePath → File → Disk → Disk
put p f d = (p, f) ∷ remove p d

-- The names of the files in a folder.
abbrev child_names : FilePath → FilePath → List Text → List Text → List Text
child_names dir p [] rest = rest
child_names dir p (n ∷ ns) rest = if same_path (record p { names = ns }) dir then n ∷ rest else rest

unfoldable pub entries : FilePath → Disk → List Text
entries dir [] = []
entries dir ((p, f) ∷ d) = child_names dir p p.names (entries dir d)

abbrev pub Differs : FilePath → FilePath → Type 0
Differs p q = same_path p q ≡ false

pub Differs-sym : (p q : FilePath) → Differs p q → Differs q p
Differs-sym p q h = elim (Bool-cases (same_path q p)) [
  | inl e ↦ absurd (ground (arith, same_path_sound q p e, same_path_refl p))
  | inr e ↦ e
]

pub lookup-put : (p : FilePath) (f : File) (d : Disk) → lookup p (put p f d) ≡ some f
unfolding lookup
lookup-put p f d = rw (same_path_refl p) refl

pub lookup-remove : (p : FilePath) (d : Disk) → lookup p (remove p d) ≡ none
unfolding lookup remove
lookup-remove p [] = refl
lookup-remove p ((q, f) ∷ d) = ground (arith, lookup-remove p d)

pub lookup-remove_other :
    (p q : FilePath) (d : Disk) → Differs p q → lookup q (remove p d) ≡ lookup q d
unfolding lookup remove
lookup-remove_other p q [] h = refl
lookup-remove_other p q ((r, f) ∷ d) h = elim (Bool-cases (same_path r p)) [
  | inl e ↦ ground (arith, lookup-remove_other p q d h, same_path_sound r p e)
  | inr e ↦ ground (arith, lookup-remove_other p q d h)
]

pub lookup-put_other :
    (p q : FilePath) (f : File) (d : Disk) → Differs p q → lookup q (put p f d) ≡ lookup q d
unfolding lookup
lookup-put_other p q f d h = rw h (lookup-remove_other p q d h)
