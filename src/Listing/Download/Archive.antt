-- ===== src/Listing/Download/Archive.antt =====
-- directory_listing_download.rs, `archive`. `Folder` holds what the file system gives: the entries of a
-- directory in their order, where reading the next one or its type may fail, whether a path leads to a
-- directory, and whether the archive takes an item. The tar and gzip formats belong to crates; the
-- archive is the list of the items appended to it.
pub mod Walked
pub mod Held
mod Tests
use weave_gate.Common.{
  ℕ, zero, suc, String, Bool, true, false, ◌&&◌, ◌||◌, Option, none, some, List, [], ◌∷◌, ◌++◌,
  and_then, if◌then◌else◌,
}
use weave_gate.Common.Text.{is_empty, starts_with_char}
use weave_gate.Paths.{push}
use weave_gate.Markdown.{strip_path}

-- an entry of a directory; its type is whether it is a directory and whether it is a link
pub record Entry : Type 0 where
  pub name : String
  pub file_type : Option (Bool × Bool)

-- an element of the stack
pub record Job : Type 0 where
  pub src : String
  pub is_dir : Bool
  pub is_symlink : Bool

-- `append_dir` and `append_path_with_name`
pub data Appended : Type 0 where
  a_dir : String → String → Appended
  a_path : String → String → Appended

pub record Folder : Type 0 where
  pub read_dir : String → Option (List (Option Entry))
  pub is_dir : String → Bool
  pub takes : Appended → Bool

-- `stack.push`, one after the other; the stack's top is its head here
unfoldable pub push_all : List Job → List Job → List Job
push_all [] stack = stack
push_all (job ∷ jobs) stack = push_all jobs (job ∷ stack)

module _ (f : Folder) (follow_symlinks ignore_hidden : Bool) where
  -- the loop over the entries of a directory
  unfoldable pub jobs_of : String → List (Option Entry) → Option (List Job)
  jobs_of src [] = some []
  jobs_of src (none ∷ entries) = none
  jobs_of src (some entry ∷ entries) =
      let rest = jobs_of src entries in
      if ignore_hidden && starts_with_char b'.' entry.name
      then rest
      else and_then entry.file_type (λ (t : Bool × Bool). and_then rest (λ jobs.
        some (record { src = push src entry.name; is_dir = t.0; is_symlink = t.1 } ∷ jobs)))

  unfoldable pub expands : Job → Bool
  expands job = job.is_dir || (job.is_symlink && (follow_symlinks && f.is_dir job.src))

  unfoldable pub children : Job → Option (List Job)
  children job = and_then (f.read_dir job.src) (jobs_of job.src)

  -- what is appended, unless it fails
  unfoldable pub append : Appended → Option (List Appended)
  append item = if f.takes item then some (item ∷ []) else none

  -- the item of a job
  unfoldable pub item_of : Job → String → Option (List Appended)
  item_of job dest =
      if expands job
      then (if is_empty dest then some [] else append (a_dir dest job.src))
      else append (a_path job.src dest)

  -- the jobs below a job
  unfoldable pub pushed : Job → Option (List Job)
  pushed job = if expands job then children job else some []

  module _ (path src_path : String) where
    -- one round: the jobs to push and the items to append
    unfoldable pub visit : Job → Option (List Job × List Appended)
    visit job = and_then (strip_path job.src src_path) (λ rest.
        and_then (pushed job)
          (λ jobs. and_then (item_of job (push path rest)) (λ items. some (jobs, items))))

    -- The loop, on fuel, with the items so far: what is in the archive at its end, and whether it came
    -- to that end without an error.
    unfoldable pub archive_loop : ℕ → List Job → List Appended → Option (List Appended × Bool)
    archive_loop fuel [] items = some (items, true)
    archive_loop zero (job ∷ stack) items = none
    archive_loop (suc fuel) (job ∷ stack) items = elim (visit job) [
      | none ↦ some (items, false)
      | some (jobs, more) ↦ archive_loop fuel (push_all jobs stack) (items ++ more)
    ]

    abbrev pub first_job : Job
    first_job = record { src = src_path; is_dir = true; is_symlink = false }

    unfoldable pub archive : ℕ → Option (List Appended × Bool)
    archive fuel = archive_loop fuel (first_job ∷ []) []
