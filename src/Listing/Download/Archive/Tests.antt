-- ===== src/Listing/Download/Archive/Tests.antt =====
-- A run of the archive of a directory with a hidden entry, a file and a link.
use weave_gate.Common.{
  ℕ, ◌<◌, ◌≡◌, refl, subst, arith, Bool, true, false, Option, none, some, List, [], ◌∷◌, ◌==◌,
  eq_iff, All, Bool-cases, inl, inr, if◌then◌else◌,
}
use weave_gate.Common.Pairs.{some_inj}
use weave_gate.Listing.Download.Archive.{
  Entry, Job, Appended, a_dir, a_path, Folder, expands, children, pushed, jobs_of, first_job,
  archive, visit, item_of, append, archive_loop, push_all,
}
use weave_gate.Listing.Download.Archive.Walked.{Reach, total}
use weave_gate.Listing.Download.Archive.Held.{IsFinite, IsOfReached, IsArchived, archive-IsArchived}
use weave_gate.Paths.{push, components, strip_components}
use weave_gate.Markdown.{text_behind, strip_path, drop_components}
use weave_gate.Common.Text.{join, split}

abbrev listed : List (Option Entry)
listed =
    some (record { name = ".git"; file_type = some (true, false) })
    ∷ some (record { name = "a"; file_type = some (false, false) })
    ∷ some (record { name = "l"; file_type = some (false, true) })
    ∷ []

-- `/r/l` is a link to a directory outside
abbrev folder : Folder
folder = record {
  read_dir = λ path. if path == "/r" then some listed else none;
  is_dir = λ path. path == "/r/l";
  takes = λ item. true;
}

kept_in :
    archive folder false true "r" "/r" 4
    ≡ some (a_dir "r/" "/r" ∷ a_path "/r/l" "r/l" ∷ a_path "/r/a" "r/a" ∷ [], true)
unfolding archive archive_loop visit strip_path strip_components components split pushed expands
    children jobs_of item_of push text_behind join drop_components append push_all
kept_in = refl

abbrev outside : Folder
outside = record folder {
  read_dir = λ path.
      if path == "/r/l"
      then some (some (record { name = "passwd"; file_type = some (false, false) }) ∷ [])
      else folder.read_dir path;
}

-- followed, the link brings the files outside with it
led_out :
    archive outside true true "r" "/r" 5
    ≡ some (
      a_dir "r/" "/r"
          ∷ a_dir "r/l" "/r/l"
          ∷ a_path "/r/l/passwd" "r/l/passwd"
          ∷ a_path "/r/a" "r/a"
          ∷ [],
      true,
    )
unfolding archive archive_loop visit strip_path strip_components components split pushed expands
    children jobs_of item_of push text_behind join drop_components append push_all
led_out = refl

abbrev weight : Job → ℕ
weight job = if job.src == "/r" then 3 else 1

root_weight :
    (dir symlink : Bool) (jobs : List Job)
    → children folder false true (record { src = "/r"; is_dir = dir; is_symlink = symlink })
      ≡ some jobs
    → total weight jobs < 3
unfolding children jobs_of push
root_weight dir symlink jobs h = subst (λ js. total weight js < 3) (some_inj h) (omega arith)

outside_weight :
    (job : Job) (jobs : List Job)
    → (job.src == "/r") ≡ false
    → children folder false true job ≡ some jobs
    → total weight jobs < 1
unfolding children
outside_weight job jobs n h = cc (rw (n, children) at h)

weight-positive : (job : Job) → 0 < weight job
weight-positive job = elim (Bool-cases (job.src == "/r")) [
  | inl e ↦ rw (e) (omega arith)
  | inr e ↦ rw (e) (omega arith)
]

folder-IsFinite : IsFinite folder false true "r" "/r" weight
unfolding pushed
folder-IsFinite job jobs h = elim (Bool-cases (expands folder false true job)) [
  | inr e ↦
      subst (λ js. total weight js < weight job) (some_inj (rw (e, pushed) at h))
        (weight-positive job)
  | inl e ↦
      let h' : children folder false true job ≡ some jobs = rw (e, pushed) at h in
      elim (Bool-cases (job.src == "/r")) [
        | inr n ↦ rw (n) (outside_weight job jobs n h')
        | inl s ↦ rw (s) (
            root_weight job.is_dir job.is_symlink jobs (
              subst
                (λ src.
                  children folder false true
                    (record { src = src; is_dir = job.is_dir; is_symlink = job.is_symlink })
                  ≡ some jobs)
                ((eq_iff job.src "/r").0 s) h'))
      ]
]

archive-IsArchived_example :
    (all : List Appended) × (done : Bool) × (archive folder false true "r" "/r" 4
      ≡ some (all, done))
    × All (IsOfReached folder false true "r" "/r") all
    × (done ≡ true
        → (job : Job) → Reach folder false true (first_job folder false true "r" "/r") job
        → IsArchived folder false true "r" "/r" all job)
archive-IsArchived_example =
    archive-IsArchived folder false true "r" "/r" weight 4 folder-IsFinite (omega arith)
