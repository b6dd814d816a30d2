-- ===== src/Paths.antt =====
-- `std::path::PathBuf` as far as the sources use it: whether it is absolute, and its components, the
-- last one first.
use douglas.Base.{
  ◌≡◌, refl, Bool, true, false, ◌&&◌, Option, none, some, List, [], ◌∷◌, ◌++◌, arith, if◌then◌else◌,
}
use douglas.Text.{Text, codes, same_text, same_text_refl, same_text_sound}

pub record FilePath : Type 0 where
  pub absolute : Bool
  pub names : List Text

-- `Path::join`
abbrev pub join : FilePath → FilePath → FilePath
join p q = if q.absolute then q else record p { names = q.names ++ p.names }

abbrev pub join_name : FilePath → Text → FilePath
join_name p name = record p { names = name ∷ p.names }

-- `Path::file_name`
abbrev last_name : List Text → Option Text
last_name [] = none
last_name (n ∷ ns) = if same_text n (codes "..") then none else some n

unfoldable pub file_name : FilePath → Option Text
file_name p = last_name p.names

abbrev folder_names : List Text → List Text
folder_names [] = []
folder_names (n ∷ ns) = if same_text n (codes "..") then n ∷ ns else ns

-- `Path::with_file_name`
unfoldable pub with_file_name : FilePath → Text → FilePath
with_file_name p name = record p { names = name ∷ folder_names p.names }

abbrev same_names : List Text → List Text → Bool
same_names [] [] = true
same_names [] (_ ∷ _) = false
same_names (_ ∷ _) [] = false
same_names (n ∷ ns) (m ∷ ms) = same_text n m && same_names ns ms

abbrev same_flag : Bool → Bool → Bool
same_flag true b = b
same_flag false true = false
same_flag false false = true

unfoldable pub same_path : FilePath → FilePath → Bool
same_path p q = same_flag p.absolute q.absolute && same_names p.names q.names

same_names_refl : (ns : List Text) → same_names ns ns ≡ true
same_names_refl [] = refl
same_names_refl (n ∷ ns) = ground (arith, same_text_refl n, same_names_refl ns)

same_names_sound : (ns ms : List Text) → same_names ns ms ≡ true → ns ≡ ms
same_names_sound [] [] h = refl
same_names_sound [] (_ ∷ _) h = cc
same_names_sound (_ ∷ _) [] h = cc
same_names_sound (n ∷ ns) (m ∷ ms) h = ground (arith, same_text_sound n m, same_names_sound ns ms)

same_flag_refl : (b : Bool) → same_flag b b ≡ true
same_flag_refl true = refl
same_flag_refl false = refl

same_flag_sound : (a b : Bool) → same_flag a b ≡ true → a ≡ b
same_flag_sound true true h = refl
same_flag_sound true false h = cc
same_flag_sound false true h = cc
same_flag_sound false false h = refl

pub same_path_refl : (p : FilePath) → same_path p p ≡ true
unfolding same_path
same_path_refl p = ground (arith, same_flag_refl p.absolute, same_names_refl p.names)

pub same_path_sound : (p q : FilePath) → same_path p q ≡ true → p ≡ q
unfolding same_path
same_path_sound p q h =
    let a = same_flag_sound p.absolute q.absolute (ground arith) in
    let b = same_names_sound p.names q.names (ground arith) in cc
