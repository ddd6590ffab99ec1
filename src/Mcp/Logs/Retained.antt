-- ===== src/Mcp/Logs/Retained.antt =====
-- Which files the cleanup removes.
use local_clash.Prelude.{
  String, ◌||◌, ◌⊎◌, ◌↔◌, Option, none, some, some-injective, true, false, ℕ, zero, suc, ◌*◌, ◌≤◌,
  ◌<◌, ltb, nat_eq, ◌≡◌, refl, ap, List, [], ◌∷◌, ◌++◌, All, All-map, Bool-cases, inl, inr, arith,
  length,
}
use local_clash.Prelude.Text.{has_suffix}
use local_clash.Mcp.Logs.{
  Entry, TaskFile, task_file, keep_file, insert_file, sort_files, task_files, beyond, within,
  cleanup_task_log_dir, retained_files,
}

-- The newest first.
Sorted : List TaskFile → Type 0
Sorted [] = Unit
Sorted (f ∷ fs) = All (λ (g : TaskFile). g.mod_time ≤ f.mod_time) fs × Sorted fs

All-insert_file :
    (P : TaskFile → Type 0) (f : TaskFile) (gs : List TaskFile)
    → P f
    → All P gs
    → All P (insert_file f gs)
unfolding insert_file
All-insert_file P f [] p h = (p, tt)
All-insert_file P f (g ∷ gs) p h = elim (Bool-cases (ltb f.mod_time g.mod_time)) [
  | inl later ↦ rw later (h.0, All-insert_file P f gs p h.1)
  | inr first ↦ rw first (p, h)
]

insert_file-Sorted : (f : TaskFile) (gs : List TaskFile) → Sorted gs → Sorted (insert_file f gs)
unfolding insert_file Sorted
insert_file-Sorted f [] h = (tt, tt)
insert_file-Sorted f (g ∷ gs) h = elim (Bool-cases (ltb f.mod_time g.mod_time)) [
  | inl later ↦
      let older : f.mod_time ≤ g.mod_time = ground arith in
      rw later (
        All-insert_file (λ (x : TaskFile). x.mod_time ≤ g.mod_time) f gs older h.0,
        insert_file-Sorted f gs h.1,
      )
  | inr first ↦
      let newer : g.mod_time ≤ f.mod_time = ground arith in
      rw first (
        (
          newer,
          All-map (λ (x : TaskFile). x.mod_time ≤ g.mod_time)
              (λ (x : TaskFile). x.mod_time ≤ f.mod_time) gs (λ x below. omega arith) h.0,
        ),
        h,
      )
]

sort_files-Sorted : (fs : List TaskFile) → Sorted (sort_files fs)
unfolding sort_files Sorted
sort_files-Sorted [] = tt
sort_files-Sorted (f ∷ fs) = insert_file-Sorted f (sort_files fs) (sort_files-Sorted fs)

All-beyond : (P : TaskFile → Type 0) (n : ℕ) (fs : List TaskFile) → All P fs → All P (beyond n fs)
unfolding beyond
All-beyond P zero fs h = h
All-beyond P (suc n) [] h = tt
All-beyond P (suc n) (f ∷ fs) h = All-beyond P n fs h.1

-- No file of the second list is newer than one of the first.
abbrev pub NoneNewer : List TaskFile → List TaskFile → Type 0
NoneNewer kept removed =
    All (λ (k : TaskFile). All (λ (r : TaskFile). r.mod_time ≤ k.mod_time) removed) kept

within-NoneNewer : (n : ℕ) (fs : List TaskFile) → Sorted fs → NoneNewer (within n fs) (beyond n fs)
unfolding within beyond Sorted
within-NoneNewer zero fs h = tt
within-NoneNewer (suc n) [] h = tt
within-NoneNewer (suc n) (f ∷ fs) h =
    (All-beyond (λ (r : TaskFile). r.mod_time ≤ f.mod_time) n fs h.0, within-NoneNewer n fs h.1)

length-within : (n : ℕ) (fs : List TaskFile) → length (within n fs) ≤ n
unfolding within
length-within zero fs = omega arith
length-within (suc n) [] = omega arith
length-within (suc n) (f ∷ fs) = omega (arith, length-within n fs)

within-beyond : (n : ℕ) (fs : List TaskFile) → within n fs ++ beyond n fs ≡ fs
unfolding within beyond
within-beyond zero fs = refl
within-beyond (suc n) [] = refl
within-beyond (suc n) (f ∷ fs) = ap (λ (l : List TaskFile). f ∷ l) (within-beyond n fs)

-- The file is in the list.
abbrev pub In : TaskFile → List TaskFile → Type 0
In f [] = ⊥
In f (g ∷ gs) = (g ≡ f) ⊎ In f gs

-- The entry is this file, its time can be read, and its name ends in `.log` or `.json`.
abbrev pub IsFileOf : TaskFile → Entry → Type 0
IsFileOf f e =
    (e.is_dir ≡ false)
    × (e.name ≡ f.name)
    × (e.modified ≡ some f.mod_time)
    × ((has_suffix e.name ".log" ≡ true) ⊎ (has_suffix e.name ".json" ≡ true))

abbrev pub Listed : TaskFile → List Entry → Type 0
Listed f [] = ⊥
Listed f (e ∷ es) = IsFileOf f e ⊎ Listed f es

In-insert_file : (f g : TaskFile) (gs : List TaskFile) → In f (insert_file g gs) ↔ In f (g ∷ gs)
unfolding insert_file
In-insert_file f g [] = (λ h. h, λ h. h)
In-insert_file f g (k ∷ gs) =
    let later = In-insert_file f g gs in
    elim (Bool-cases (ltb g.mod_time k.mod_time)) [
      | inr first ↦ rw first (λ h. h, λ h. h)
      | inl behind ↦ rw behind (
        λ h. elim h [
          | inl here ↦ inr (inl here)
          | inr there ↦ elim (later.0 there) [ inl it ↦ inl it | inr rest ↦ inr (inr rest) ]
        ],
        λ h. elim h [
          | inl it ↦ inr (later.1 (inl it))
          | inr there ↦ elim there [ inl here ↦ inl here | inr rest ↦ inr (later.1 (inr rest)) ]
        ],
      )
    ]

In-sort_files : (f : TaskFile) (fs : List TaskFile) → In f (sort_files fs) ↔ In f fs
unfolding sort_files
In-sort_files f [] = (λ h. h, λ h. h)
In-sort_files f (g ∷ gs) =
    let insert = In-insert_file f g (sort_files gs) in
    let rest = In-sort_files f gs in
    (
      λ h. elim (insert.0 h) [ inl it ↦ inl it | inr there ↦ inr (rest.0 there) ],
      λ h. insert.1 (elim h [ inl it ↦ inl it | inr there ↦ inr (rest.1 there) ]),
    )

task_file-eq-some :
    (f : TaskFile) (e : Entry) (time : Option ℕ)
    → task_file e time ≡ some f
    → (e.is_dir ≡ false)
      × (e.name ≡ f.name)
      × (time ≡ some f.mod_time)
      × ((has_suffix e.name ".log" || has_suffix e.name ".json") ≡ true)
unfolding task_file
task_file-eq-some f e none h = cc
task_file-eq-some f e (some t) h = elim (Bool-cases e.is_dir) [
  | inl dir ↦ ground arith
  | inr file ↦ elim (Bool-cases (has_suffix e.name ".log" || has_suffix e.name ".json")) [
    | inr other ↦ ground arith
    | inl task ↦
        let same : some (record { name = e.name; mod_time = t }) ≡ some f = ground arith in
        let it = some-injective _ _ same in
        (file, ap (λ (g : TaskFile). g.name) it, ap (λ (g : TaskFile). some g.mod_time) it, task)
  ]
]

suffix-cases :
    (name : String)
    → (has_suffix name ".log" || has_suffix name ".json") ≡ true
    → (has_suffix name ".log" ≡ true) ⊎ (has_suffix name ".json" ≡ true)
suffix-cases name h = elim (Bool-cases (has_suffix name ".log")) [
  | inl log ↦ inl log
  | inr other ↦ inr (ground arith)
]

task_file-some :
    (f : TaskFile) (e : Entry)
    → e.is_dir ≡ false
    → e.name ≡ f.name
    → e.modified ≡ some f.mod_time
    → (has_suffix e.name ".log" ≡ true) ⊎ (has_suffix e.name ".json" ≡ true)
    → task_file e e.modified ≡ some f
unfolding task_file
task_file-some f e file name time suffix =
    let task : (has_suffix e.name ".log" || has_suffix e.name ".json") ≡ true = elim suffix [
      | inl log ↦ rw log refl
      | inr json ↦ elim (Bool-cases (has_suffix e.name ".log")) [
        | inl log ↦ rw log refl
        | inr other ↦ rw (other, json) refl
      ]
    ] in
    rw (time, file, task, name) refl

task_file-IsFileOf : (f : TaskFile) (e : Entry) → (task_file e e.modified ≡ some f) ↔ IsFileOf f e
task_file-IsFileOf f e = (
  λ h.
      let (dir, name, time, suffix) = task_file-eq-some f e e.modified h in
      (dir, name, time, suffix-cases e.name suffix),
  λ h. task_file-some f e h.0 h.1 h.2 h.3,
)

keep_file-In :
    (f : TaskFile) (o : Option TaskFile) (fs : List TaskFile)
    → In f (keep_file o fs) ↔ ((o ≡ some f) ⊎ In f fs)
keep_file-In f none fs = (λ h. inr h, λ h. elim h [ inl e ↦ cc | inr there ↦ there ])
keep_file-In f (some g) fs = (
  λ h. elim h [ inl it ↦ inl (ap some it) | inr there ↦ inr there ],
  λ h. elim h [ inl e ↦ inl (some-injective _ _ e) | inr there ↦ inr there ],
)

In-task_files : (f : TaskFile) (es : List Entry) → In f (task_files es) ↔ Listed f es
unfolding task_files
In-task_files f [] = (λ h. h, λ h. h)
In-task_files f (e ∷ es) =
    let keep = keep_file-In f (task_file e e.modified) (task_files es) in
    let here = task_file-IsFileOf f e in
    let rest = In-task_files f es in
    (
      λ h. elim (keep.0 h) [ inl it ↦ inl (here.0 it) | inr there ↦ inr (rest.0 there) ],
      λ h. keep.1 (elim h [ inl it ↦ inl (here.1 it) | inr there ↦ inr (rest.1 there) ]),
    )

-- A cleanup with a positive retention removes none of a directory's entries but files that end in
-- `.log` or `.json` and have a time that can be read. All of these but at most two for each
-- retained task are removed, if os.Remove succeeds, and none that is newer than one that stays.
pub cleanup_task_log_dir-NoneNewer :
    (entries : List Entry) (retain : ℕ)
    → 0 < retain
    → (length (retained_files entries retain) ≤ retain * 2)
      × NoneNewer (retained_files entries retain) (cleanup_task_log_dir entries retain)
      × ((f : TaskFile)
          → In f (retained_files entries retain ++ cleanup_task_log_dir entries retain)
            ↔ Listed f entries)
unfolding cleanup_task_log_dir retained_files
cleanup_task_log_dir-NoneNewer entries retain positive = elim (Bool-cases (nat_eq retain 0)) [
  | inl none_kept ↦ ground arith
  | inr some_kept ↦
      let fs = sort_files (task_files entries) in
      rw some_kept (
        length-within (retain * 2) fs,
        within-NoneNewer (retain * 2) fs (sort_files-Sorted (task_files entries)),
        λ f.
            let sorted = In-sort_files f (task_files entries) in
            let listed = In-task_files f entries in
            rw (within-beyond (retain * 2) fs)
              (λ h. listed.0 (sorted.0 h), λ h. sorted.1 (listed.1 h)),
      )
]
