-- ===== src/Server/Disk/Janitor.antt =====
-- What a node does to its directories when it starts: `sweep_orphan_partials`,
-- `enforce_storage_version` and `is_dir_empty` of src/server.rs. Every removal succeeds, and the
-- `VERSION` file is its text, `none` where it is missing; other read errors are left out.
use ouroboros_fs.Base.{
  ℕ, ◌≡◌, refl, Bool, true, false, not, ◌||◌, ◌&&◌, [], ◌∷◌, Option, none, some, ◌==◌,
  if◌then◌else◌, Result, ok, err, arith, Bool-cases, inl, inr, ap,
}
use ouroboros_fs.Text.{Text, codes, trim, is_empty, eq_text, eq_text_iff}
use ouroboros_fs.Text.Pieces.{rsplit_once_str}
use ouroboros_fs.Text.Decimal.{parse_uint, max_u32}
use ouroboros_fs.Map.{get}
use ouroboros_fs.Node.{Directory}

-- `Path::extension`: what follows the last dot, unless nothing stands before it.
extension_of : Option (Text × Text) → Option Text
extension_of none = none
extension_of (some (stem, ext)) = if is_empty stem then none else some ext

unfoldable pub extension : Text → Option Text
unfolding extension_of
extension name = extension_of (rsplit_once_str (codes ".") name)

-- `== Some("partial")`
named_partial : Option Text → Bool
named_partial none = false
named_partial (some ext) = eq_text ext (codes "partial")

unfoldable pub is_partial : Text → Bool
unfolding named_partial
is_partial name = named_partial (extension name)

unfoldable pub sweep_orphan_partials : Directory → Directory
sweep_orphan_partials [] = []
sweep_orphan_partials ((name, bytes) ∷ dir) =
    let rest = sweep_orphan_partials dir in if is_partial name then rest else (name, bytes) ∷ rest

unfoldable pub is_dir_empty : Directory → Bool
is_dir_empty [] = true
is_dir_empty (file ∷ dir) = false

abbrev pub storage_version : ℕ
storage_version = 1

pub data StorageError : Type 0 where
  not_a_number : (raw : Text) → StorageError
  version_mismatch : (found : ℕ) → StorageError
  unversioned : StorageError

check_version : Text → Option ℕ → Result Text StorageError
check_version raw none = err (not_a_number raw)
check_version raw (some v) = if v == storage_version then ok raw else err (version_mismatch v)

-- `Ok` holds the text of the `VERSION` file afterwards; `forced` says that `OUROBOROS_FORCE_V1` is set.
unfoldable pub enforce_storage_version :
    Option Text → Directory → Directory → Bool → Result Text StorageError
unfolding check_version is_dir_empty
enforce_storage_version (some raw) content backup forced =
    check_version raw (parse_uint max_u32 (trim raw))
enforce_storage_version none content backup forced =
    if (not (is_dir_empty content) || not (is_dir_empty backup)) && not forced
    then err unversioned
    else ok (codes "1\n")

-- The sweep keeps the bytes of every file whose extension is not `partial`, and leaves no other.
pub get-sweep_orphan_partials :
    (dir : Directory) (name : Text)
    → get (sweep_orphan_partials dir) name ≡ (if is_partial name then none else get dir name)
unfolding sweep_orphan_partials get
get-sweep_orphan_partials [] name = ground arith
get-sweep_orphan_partials ((j, bytes) ∷ dir) name = elim (Bool-cases (eq_text j name)) [
  | inl e ↦
      let same = ap is_partial ((eq_text_iff j name).0 e) in
      ground (arith, e, same, get-sweep_orphan_partials dir name)
  | inr e ↦ ground (arith, e, get-sweep_orphan_partials dir name)
]

-- A version that was written is accepted again at the next start.
pub enforce_storage_version_again :
    (content backup : Directory) (forced : Bool)
    → enforce_storage_version (some (codes "1\n")) content backup forced ≡ ok (codes "1\n")
unfolding enforce_storage_version parse_uint trim
enforce_storage_version_again content backup forced = refl

janitor_tests :
    (is_partial (codes "a.txt.part-001-of-003.partial") ≡ true)
    × (is_partial (codes ".partial") ≡ false)
    × (is_partial (codes "partial") ≡ false)
    × (enforce_storage_version (some (codes "2\n")) [] [] true ≡ err (version_mismatch 2))
    × (enforce_storage_version none ((codes "a", []) ∷ []) [] false ≡ err unversioned)
    × (enforce_storage_version none ((codes "a", []) ∷ []) [] true ≡ ok (codes "1\n"))
unfolding is_partial extension rsplit_once_str enforce_storage_version parse_uint trim
janitor_tests = (refl, refl, refl, refl, refl, refl)
