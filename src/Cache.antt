-- ===== src/Cache.antt =====
-- crates/tx5-core/src/file_check.rs: the file of a native library, kept in a cache directory that other
-- processes use as well. What the file system answers at each step is an argument, since they may change
-- it in between; so is the digest of a file, made by the crates sha2 and base64.
pub mod Validity
use tx.Base.{
  ℕ, Bool, true, false, List, [], ◌∷◌, Option, none, some, Result, ok, err, bytes_eq, not,
  if◌then◌else◌,
}

-- What opening and reading a path gives.
pub data Found : Type 0 where
  missing : Found
  file : List ℕ → Bool → Found

pub data CheckError : Type 0 where
  env_not_directory : CheckError
  no_app_root : CheckError
  cannot_open : CheckError
  hash_miss : CheckError
  not_readonly : CheckError
  cannot_write : CheckError
  cannot_set_perms : CheckError

-- The preferred path, named by the hash, and that of a temporary file.
pub data Place : Type 0 where
  preferred : Place
  temporary : Place

-- `env` is the directory that the environment names, and whether it is one.
pub record Answers : Type 0 where
  pub env : Option Bool
  pub app_root : Bool
  pub at_first : Found
  pub written : Bool
  pub persisted : Bool
  pub perms_set : Bool
  pub once_persisted : Found
  pub in_the_way : Found
  pub at_temporary : Found

pub data Action : Type 0 where
  write_temporary : List ℕ → Action
  persist : Action
  set_perms : Action
  remove_temporary : Action
  keep_temporary : Action

abbrev pub Outcome : Type 0
Outcome = List Action × Result CheckError Place

unfoldable pub get_cache_dir : Option Bool → Bool → Result CheckError (Unit {0})
get_cache_dir (some true) app_root = ok tt
get_cache_dir (some false) app_root = err env_not_directory
get_cache_dir none true = ok tt
get_cache_dir none false = err no_app_root

abbrev pub doing : Action → Outcome → Outcome
doing act (acts, r) = (act ∷ acts, r)

module _ (digest : List ℕ → List ℕ) where
  unfoldable pub validate : List ℕ → Found → Result CheckError (Unit {0})
  validate hash missing = err cannot_open
  validate hash (file data_found readonly) =
      if not (bytes_eq (digest data_found) hash)
      then err hash_miss
      else if not readonly
      then err not_readonly
      else ok tt

  -- `validate(…)?`, and the handle to the file at `path`.
  abbrev pub checked : Place → Result CheckError (Unit {0}) → Result CheckError Place
  checked path (ok u) = ok path
  checked path (err e) = err e

  abbrev pub use_temporary : List ℕ → Answers → Outcome
  use_temporary hash a = (keep_temporary ∷ [], checked temporary (validate hash a.at_temporary))

  abbrev pub not_persisted : List ℕ → Answers → Result CheckError (Unit {0}) → Outcome
  not_persisted hash a (ok u) = (remove_temporary ∷ [], ok preferred)
  not_persisted hash a (err e) = use_temporary hash a

  abbrev pub after_write : List ℕ → Answers → Outcome
  after_write hash a =
      if a.persisted
      then doing persist (
          if a.perms_set
          then (set_perms ∷ [], checked preferred (validate hash a.once_persisted))
          else (set_perms ∷ [], err cannot_set_perms))
      else not_persisted hash a (validate hash a.in_the_way)

  abbrev pub when_cached : List ℕ → List ℕ → Answers → Result CheckError (Unit {0}) → Outcome
  when_cached data_given hash a (ok u) = ([], ok preferred)
  when_cached data_given hash a (err e) =
      doing (write_temporary data_given)
        (if a.written then after_write hash a else ([], err cannot_write))

  abbrev pub in_dir : List ℕ → List ℕ → Answers → Result CheckError (Unit {0}) → Outcome
  in_dir data_given hash a (ok u) = when_cached data_given hash a (validate hash a.at_first)
  in_dir data_given hash a (err e) = ([], err e)

  unfoldable pub file_check : List ℕ → List ℕ → Answers → Outcome
  unfolding validate
  file_check data_given hash a = in_dir data_given hash a (get_cache_dir a.env a.app_root)
