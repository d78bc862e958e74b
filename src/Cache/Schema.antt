-- ===== src/Cache/Schema.antt =====
-- `_init_schema` of backend/cache.py: the version that the file records.
--
-- The recorded version is what `int` makes of its text, `none` where that raises; the file has no
-- version where its meta table is new.
use mathlib.Core.Path.{subst}
use meander.Common.{
  Bool, Bool-cases, Option, arith, false, if_ind, if◌then◌else◌, inl, inr, none, refl, some, suc,
  sym, true, zero, ℕ, ◌+◌, ◌==◌, ◌≡◌, ◌≢◌, ◌⊎◌,
}
use meander.Common.Int.{negsuc, pos, ℤ}

abbrev pub schema_version : ℕ
schema_version = 4

pub record File : Type 0 where
  pub version : Option (Option ℤ)
  pub has_access_segments : Bool
  -- every table and index of `_SCHEMA`
  pub has_schema : Bool

pub data Opened : Type 0 where
  ready : File → Opened
  schema_version_mismatch : File → Opened
  still_migrating : Opened

-- -1 where the recorded version is no number
unfoldable pub found_version : Option ℤ → ℤ
found_version none = negsuc 0
found_version (some v) = v

-- The steps of `_MIGRATIONS`: `none` where there is no entry.
unfoldable pub migration_from : ℤ → File → Option File
migration_from (pos n) file =
    if n == 3
    then some (record file { version = some (some (pos 4)); has_access_segments = false })
    else none
migration_from (negsuc n) file = none

unfoldable pub is_current : ℤ → Bool
is_current (pos n) = n == schema_version
is_current (negsuc n) = false

unfoldable pub next_version : ℤ → ℤ
next_version (pos n) = pos (n + 1)
next_version (negsuc zero) = pos 0
next_version (negsuc (suc n)) = negsuc n

-- The loop, with at most `fuel` rounds.
unfoldable pub migrate : (fuel : ℕ) → ℤ → File → Opened
unfolding is_current next_version migration_from
migrate zero found file = still_migrating
migrate (suc fuel) found file =
    if is_current found then ready file else elim (migration_from found file) [
      | none ↦ schema_version_mismatch file
      | some migrated ↦ migrate fuel (next_version found) migrated
    ]

-- One round for the one entry of `_MIGRATIONS`, and one for the test that ends the loop.
unfoldable pub open_recorded : Option (Option ℤ) → File → Opened
unfolding found_version
open_recorded none file = ready (record file { version = some (some (pos schema_version)) })
open_recorded (some recorded) file = migrate 2 (found_version recorded) file

-- conn.executescript(_SCHEMA), which commits: what is there stays, what is missing is created.
unfoldable pub execute_schema : File → File
execute_schema file = record file { has_schema = true }

unfoldable pub init_schema : File → Opened
unfolding execute_schema
init_schema old = let file = execute_schema old in open_recorded file.version file

abbrev pub IsCurrent : File → Type 0
IsCurrent file = file.version ≡ some (some (pos schema_version))

-- What opening a file comes to, by the version that it records: a new file and a file of version 4 keep
-- their tables, a file of version 3 loses `access_segments`, and any other is refused; whatever comes of
-- it, the file then has the tables of the schema.
abbrev pub IsOpened : File → Opened → Type 0
IsOpened file (ready opened) =
    IsCurrent opened
    × (opened.has_schema ≡ true)
    × (((file.version ≡ some (some (pos 3))) × (opened.has_access_segments ≡ false))
        ⊎ (((file.version ≡ none) ⊎ IsCurrent file)
            × (opened.has_access_segments ≡ file.has_access_segments)))
IsOpened file (schema_version_mismatch refused) =
    (refused.version ≡ file.version)
    × (refused.has_access_segments ≡ file.has_access_segments)
    × (refused.has_schema ≡ true)
    × (file.version ≢ none)
    × (file.version ≢ some (some (pos 3)))
    × (file.version ≢ some (some (pos schema_version)))
IsOpened file still_migrating = ⊥

migrate-IsOpened_three :
    (file : File)
    → file.has_schema ≡ true
    → file.version ≡ some (some (pos 3))
    → IsOpened file (migrate 2 (pos 3) file)
unfolding migrate is_current next_version migration_from
migrate-IsOpened_three file t e = (refl, t, inl (e, refl))

migrate-IsOpened :
    (n : ℕ) (file : File)
    → file.has_schema ≡ true
    → file.version ≡ some (some (pos n))
    → IsOpened file (migrate 2 (pos n) file)
unfolding migrate is_current next_version migration_from
migrate-IsOpened n file t e = elim (Bool-cases (n == 3)) [
  | inl k ↦
      subst (λ m. file.version ≡ some (some (pos m)) → IsOpened file (migrate 2 (pos m) file))
        (sym (ground arith)) (migrate-IsOpened_three file t) e
  | inr k ↦
      if_ind (IsOpened file) (n == schema_version) (λ h. ground arith)
        λ h. rw k (refl, refl, t, ground arith, ground arith, ground arith)
]

open_recorded-IsOpened :
    (v : Option (Option ℤ)) (file : File)
    → file.has_schema ≡ true
    → file.version ≡ v
    → IsOpened file (open_recorded v file)
unfolding open_recorded found_version migrate is_current next_version migration_from
open_recorded-IsOpened none file t e = (refl, t, inr (inl e, refl))
open_recorded-IsOpened (some none) file t e = ground arith
open_recorded-IsOpened (some (some (pos n))) file t e = migrate-IsOpened n file t e
open_recorded-IsOpened (some (some (negsuc n))) file t e = ground arith

-- Opening a file ends within the rounds given: with a file that records version 4, which is new, was of
-- version 4, or was of version 3 and has lost `access_segments`; or, for any other recorded version,
-- with a refusal that leaves the version and `access_segments` as they were. Either way the file then
-- has the tables and indexes of the schema, a refused one too.
pub init_schema-IsOpened : (file : File) → IsOpened file (init_schema file)
unfolding init_schema execute_schema
init_schema-IsOpened file =
    open_recorded-IsOpened file.version (record file { has_schema = true }) refl refl
