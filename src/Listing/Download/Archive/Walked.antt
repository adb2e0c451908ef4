-- ===== src/Listing/Download/Archive/Walked.antt =====
-- What the archive holds.
use mathlib.Core.List.{Memᴰ}
use mathlib.Core.List.Memᴰ.{head, tail}
use weave_gate.Common.{
  ℕ, ◌+◌, ◌≡◌, ◌⊎◌, inl, inr, refl, sym, ap, ◌∙◌, subst, arith, String, Bool, true, false, ◌&&◌,
  Option, none, some, List, [], ◌∷◌, All, Option-cases, Bool-cases,
}
use weave_gate.Common.Text.{starts_with_char}
use weave_gate.Common.Pairs.{some_inj}
use weave_gate.Paths.{push}
use weave_gate.Listing.Download.Archive.{
  Entry, Job, Folder, push_all, jobs_of, expands, children, pushed,
}

pub mem_push_all-old :
    {job : Job} (jobs stack : List Job) → Memᴰ job stack → Memᴰ job (push_all jobs stack)
unfolding push_all
mem_push_all-old [] stack m = m
mem_push_all-old (j ∷ jobs) stack m = mem_push_all-old jobs (j ∷ stack) (tail m)

pub mem_push_all-new :
    {job : Job} (jobs stack : List Job) → Memᴰ job jobs → Memᴰ job (push_all jobs stack)
unfolding push_all
mem_push_all-new [] stack m = elim m [ ]
mem_push_all-new (j ∷ jobs) stack (head e) = mem_push_all-old jobs (j ∷ stack) (head e)
mem_push_all-new (j ∷ jobs) stack (tail m) = mem_push_all-new jobs (j ∷ stack) m

pub push_all-All {κ} :
    (P : Job → Type κ) (jobs stack : List Job)
    → All P jobs
    → All P stack
    → All P (push_all jobs stack)
unfolding push_all
push_all-All P [] stack h k = k
push_all-All P (j ∷ jobs) stack (p, h) k = push_all-All P jobs (j ∷ stack) h (p, k)

-- the sum of the weights
abbrev pub total : (Job → ℕ) → List Job → ℕ
total weight [] = 0
total weight (job ∷ jobs) = weight job + total weight jobs

pub total-push_all :
    (weight : Job → ℕ) (jobs stack : List Job)
    → total weight (push_all jobs stack) ≡ total weight jobs + total weight stack
unfolding push_all
total-push_all weight [] stack = omega arith
total-push_all weight (j ∷ jobs) stack = omega (arith, total-push_all weight jobs (j ∷ stack))

module _ (f : Folder) (follow_symlinks ignore_hidden : Bool) where
  -- The job of an entry that can be read and is not left out as hidden.
  pub data IsChild (src : String) : List (Option Entry) → Job → Type 0 where
    here :
        (entry : Entry) (dir symlink : Bool) (rest : List (Option Entry))
        → ignore_hidden && starts_with_char b'.' entry.name ≡ false
        → entry.file_type ≡ some (dir, symlink)
        → IsChild src
            (some entry ∷ rest)
            (record { src = push src entry.name; is_dir = dir; is_symlink = symlink })
    there :
        (entry : Option Entry) (rest : List (Option Entry)) (job : Job)
        → IsChild src rest job
        → IsChild src (entry ∷ rest) job

  -- The jobs below a job: its entries, if it is a directory or a link to one that is followed.
  pub record IsBelow (parent job : Job) : Type 0 where
    pub entries : List (Option Entry)
    pub opened : expands f follow_symlinks ignore_hidden parent ≡ true
    pub listed : f.read_dir parent.src ≡ some entries
    pub child : IsChild parent.src entries job

  pub data Reach (top : Job) : Job → Type 0 where
    start : Reach top top
    below : (parent job : Job) → Reach top parent → IsBelow parent job → Reach top job

  -- the first step of a walk
  pub Reach-split :
      (top job : Job) → Reach top job → (job ≡ top) ⊎ ((c : Job) × IsBelow top c × Reach c job)
  Reach-split top job start = inl refl
  Reach-split top job (below parent _ r b) = elim (Reach-split top parent r) [
    | inl e ↦ inr (job, subst (λ p. IsBelow p job) e b, start)
    | inr (c, first, rest) ↦ inr (c, first, below parent job rest b)
  ]

  abbrev jobs : String → List (Option Entry) → Option (List Job)
  jobs src entries = jobs_of f follow_symlinks ignore_hidden src entries

  abbrev hidden : Entry → Bool
  hidden entry = ignore_hidden && starts_with_char b'.' entry.name

  abbrev job_at : String → Entry → Bool × Bool → Job
  job_at src entry t = record { src = push src entry.name; is_dir = t.0; is_symlink = t.1 }

  -- what `jobs_of` gives for an entry in front of others
  jobs_of-cases :
      (src : String) (entry : Entry) (rest : List (Option Entry)) (found : List Job)
      → jobs src (some entry ∷ rest) ≡ some found
      → ((hidden entry ≡ true) × (jobs src rest ≡ some found))
        ⊎ ((hidden entry ≡ false)
            × ((t : Bool × Bool) × (entry.file_type ≡ some t)
                × ((others : List Job) × (jobs src rest ≡ some others)
                    × (found ≡ job_at src entry t ∷ others))))
  unfolding jobs_of
  jobs_of-cases src entry rest found h = elim (Bool-cases (hidden entry)) [
    | inl e ↦ inl (e, rw (e, jobs_of) at h)
    | inr e ↦ elim (Option-cases entry.file_type) [
      | inl none_type ↦ cc (rw (e, none_type, jobs_of) at h)
      | inr (t, is_type) ↦ elim (Option-cases (jobs src rest)) [
        | inl no_rest ↦ cc (rw (e, is_type, no_rest, jobs_of) at h)
        | inr (others, is_rest) ↦ inr (
          e,
          (t, is_type, (others, is_rest, sym (some_inj (rw (e, is_type, is_rest, jobs_of) at h)))),
        )
      ]
    ]
  ]

  jobs_of_sound :
      (src : String) (entries : List (Option Entry)) (found : List Job) (job : Job)
      → jobs src entries ≡ some found
      → Memᴰ job found
      → IsChild src entries job
  unfolding jobs_of
  jobs_of_sound src [] found job h m = elim (subst (Memᴰ job) (sym (some_inj h)) m) [ ]
  jobs_of_sound src (none ∷ rest) found job h m = cc
  jobs_of_sound src (some entry ∷ rest) found job h m =
      elim (jobs_of-cases src entry rest found h) [
        | inl (_, e) ↦ there (some entry) rest job (jobs_of_sound src rest found job e m)
        | inr (e, (t, is_type, (others, is_rest, same))) ↦ elim (subst (Memᴰ job) same m) [
          | head at ↦
              subst (IsChild src (some entry ∷ rest)) (sym at) (here entry t.0 t.1 rest e is_type)
          | tail m' ↦ there (some entry) rest job (jobs_of_sound src rest others job is_rest m')
        ]
      ]

  jobs_of_complete :
      (src : String) (entries : List (Option Entry)) (found : List Job) (job : Job)
      → jobs src entries ≡ some found
      → IsChild src entries job
      → Memᴰ job found
  unfolding jobs_of
  jobs_of_complete src [] found job h c = elim c [ ]
  jobs_of_complete src (none ∷ rest) found job h c = cc
  jobs_of_complete src (some entry ∷ rest) found _ h (here _ dir symlink _ e is_type) =
      elim (jobs_of-cases src entry rest found h) [
        | inl (e', _) ↦ cc
        | inr (_, (t, is_type', (others, _, same))) ↦
            subst (Memᴰ (job_at src entry (dir, symlink))) (sym same)
              (head (ap (job_at src entry) (some_inj (sym is_type ∙ is_type'))))
      ]
  jobs_of_complete src (some entry ∷ rest) found job h (there _ _ _ c) =
      elim (jobs_of-cases src entry rest found h) [
        | inl (_, is_rest) ↦ jobs_of_complete src rest found job is_rest c
        | inr (_, (t, _, (others, is_rest, same))) ↦
            subst (Memᴰ job) (sym same) (tail (jobs_of_complete src rest others job is_rest c))
      ]

  pub pushed_sound :
      (top job : Job) (found : List Job)
      → pushed f follow_symlinks ignore_hidden top ≡ some found
      → Memᴰ job found
      → IsBelow top job
  unfolding pushed children
  pushed_sound top job found h m = elim (Bool-cases (expands f follow_symlinks ignore_hidden top)) [
    | inr e ↦ elim (subst (Memᴰ job) (sym (some_inj (rw (e, pushed) at h))) m) [ ]
    | inl e ↦ elim (Option-cases (f.read_dir top.src)) [
      | inl n ↦ cc (rw (e, n, pushed) at h)
      | inr (entries, listed) ↦ record {
        entries = entries;
        opened = e;
        listed = listed;
        child = jobs_of_sound top.src entries found job (rw (e, listed, pushed) at h) m;
      }
    ]
  ]

  pub pushed_complete :
      (top job : Job) (found : List Job)
      → pushed f follow_symlinks ignore_hidden top ≡ some found
      → IsBelow top job
      → Memᴰ job found
  unfolding pushed children
  pushed_complete top job found h b =
      jobs_of_complete top.src b.entries found job (rw (b.opened, b.listed, pushed) at h) b.child
