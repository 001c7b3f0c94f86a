-- ===== src/CloudInit/Lifecycle.antt =====
-- The files of `generate_cloud_init_iso` and `delete_cloud_init_iso`
-- (src/agentvm/storage/cloud_init.py).
use agent_vm.Base.{
  beq_refl, All, Option-cases, ◌∙◌, Bool, true, false, Option, none, List, [], ◌∷◌, contains, ◌==◌,
  if◌then◌else◌, ◌≡◌, refl, arith, Bool-cases, inl, inr, text_eq,
}
use agent_vm.Python.Paths.{path_beq_iff, FilePath, path_eq}
use agent_vm.Python.Result.{ok, raise}
use agent_vm.Python.Text.{Text}
use agent_vm.CloudInit.{
  CloudInitConfig, CloudConfig, Files, put, Written, whole, not_opened, cut_short, Made, image,
  not_installed, failed, Machine, Effect, then_do, written, iso_path, user_data_path,
  meta_data_path, made_image, generate_cloud_init_iso, delete_each, delete_cloud_init_iso,
}

-- The three files of a VM.
abbrev pub files_of : FilePath → Text → List FilePath
files_of vm_data_dir vm_id =
    iso_path vm_data_dir vm_id
    ∷ user_data_path vm_data_dir vm_id
    ∷ meta_data_path vm_data_dir vm_id
    ∷ []

-- A call leaves the files as they were but at some paths.
record Confined {A : Type 0} (paths : List FilePath) (before : Files) (call : Effect A)
    : Type 0 where
  same : (path : FilePath) → contains path paths ≡ false → call.1 path ≡ before path

-- The rest of the loop, where the first path is empty now and the other files are as they were.
delete_each_step :
    (p path : FilePath) (ps : List FilePath) (files now : Files)
    → now path ≡ (if path == p then none else files path)
    → (if contains path ps then none else now path)
      ≡ (if contains path (p ∷ ps) then none else files path)
unfolding contains
delete_each_step p path ps files now h = ground arith

put_none_lem :
    (p path : FilePath) (files : Files)
    → files p ≡ none
    → files path ≡ (if path == p then none else files path)
put_none_lem p path files absent = elim (Bool-cases (path == p)) [
  | inl same ↦ let equal : path ≡ p = (path_beq_iff path p).0 same in rw (same, equal) absent
  | inr other ↦ rw other refl
]

then_do-Confined :
    {A B : Type 0} {paths : List FilePath} {files : Files} {call : Effect A}
    {next : A → Files → Effect B}
    → Confined paths files call
    → ((v : A) (now : Files) → Confined paths now (next v now))
    → Confined paths files (then_do call next)
unfolding then_do
then_do-Confined {call = (raise error, now)} first rest = record { same = first.same }
then_do-Confined {call = (ok v, now)} first rest = record {
  same = λ path outside. (rest v now).same path outside ∙ first.same path outside;
}

put_outside :
    (p : FilePath) (paths : List FilePath) (content : Option Text) (files : Files)
    → contains p paths ≡ true
    → (path : FilePath) → contains path paths ≡ false
    → put p content files path ≡ files path
put_outside p paths content files inside path outside = elim (Bool-cases (path == p)) [
  | inl same ↦
      let equal : path ≡ p = (path_beq_iff path p).0 same in
      absurd (cc (inside, rw equal at outside))
  | inr other ↦ rw other refl
]

written-Confined :
    (p : FilePath) (paths : List FilePath) (content : Text) (w : Written) (files : Files)
    → contains p paths ≡ true
    → Confined paths files (written p content w files)
written-Confined p paths content whole files inside = record {
  same = put_outside p paths _ files inside;
}
written-Confined p paths content not_opened files inside = record { same = λ _ _. refl }
written-Confined p paths content (cut_short text) files inside = record {
  same = put_outside p paths _ files inside;
}

made_image-Confined :
    (p : FilePath) (paths : List FilePath) (made : Made) (files : Files)
    → contains p paths ≡ true
    → Confined paths files (made_image p made files)
made_image-Confined p paths (image content) files inside = record {
  same = put_outside p paths _ files inside;
}
made_image-Confined p paths not_installed files inside = record { same = λ _ _. refl }
made_image-Confined p paths (failed left) files inside = record {
  same = put_outside p paths _ files inside;
}

files_of_contained :
    (dir : FilePath) (vm_id : Text)
    → (contains (iso_path dir vm_id) (files_of dir vm_id) ≡ true)
      × (contains (user_data_path dir vm_id) (files_of dir vm_id) ≡ true)
      × (contains (meta_data_path dir vm_id) (files_of dir vm_id) ≡ true)
unfolding contains
files_of_contained dir vm_id = ground (
  arith,
  beq_refl (iso_path dir vm_id),
  beq_refl (user_data_path dir vm_id),
  beq_refl (meta_data_path dir vm_id),
)

unless_contained :
    {b : Bool} {now before : Option Text}
    → (b ≡ false → now ≡ before)
    → (if b then none else now) ≡ (if b then none else before)
unless_contained {b = true} h = refl
unless_contained {b = false} h = h refl

module _ (machine : Machine) (vm_data_dir : FilePath) where
  -- After the loop, a file of the list is there no more, and any other is as before.
  delete_each_lem :
      (paths : List FilePath) (files : Files)
      → All (λ p. machine.unlink p ≡ true) paths
      → ((delete_each machine vm_data_dir paths files).0 ≡ ok tt)
        × ((path : FilePath)
            → (delete_each machine vm_data_dir paths files).1 path
              ≡ (if contains path paths then none else files path))
  unfolding contains then_do
  delete_each_lem [] files _ = (refl, λ path. refl)
  delete_each_lem (p ∷ ps) files (removable, others) = elim (Option-cases (files p)) [
    | inl absent ↦
        let (returned, left) = delete_each_lem ps files others in
        rw absent (
          returned,
          λ path.
              left path ∙ delete_each_step p path ps files files (put_none_lem p path files absent),
        )
    | inr (content, present) ↦
        let (returned, left) = delete_each_lem ps (put p none files) others in
        rw (present, removable)
          (returned, λ path. left path ∙ delete_each_step p path ps files (put p none files) refl)
  ]

  -- Where its files can be removed, `delete_cloud_init_iso` returns, the three files of the VM are there no
  -- more, whether they were or not, and every other file is as before.
  delete_cloud_init_iso_lem :
      (vm_id : Text) (files : Files)
      → All (λ p. machine.unlink p ≡ true) (files_of vm_data_dir vm_id)
      → ((delete_cloud_init_iso machine vm_data_dir vm_id files).0 ≡ ok tt)
        × ((path : FilePath)
            → (delete_cloud_init_iso machine vm_data_dir vm_id files).1 path
              ≡ (if contains path (files_of vm_data_dir vm_id) then none else files path))
  unfolding delete_cloud_init_iso
  delete_cloud_init_iso_lem vm_id files removable =
      delete_each_lem (files_of vm_data_dir vm_id) files removable

  -- `generate_cloud_init_iso` writes no file but the three of the VM, whatever fails.
  generate_cloud_init_iso-Confined :
      (safe_dump : CloudConfig → Text) (vm_id : Text) (config : CloudInitConfig) (files : Files)
      → Confined
          (files_of vm_data_dir vm_id)
          files
          (generate_cloud_init_iso machine vm_data_dir safe_dump vm_id config files)
  unfolding generate_cloud_init_iso
  generate_cloud_init_iso-Confined safe_dump vm_id config files =
      let (in_iso, in_user, in_meta) = files_of_contained vm_data_dir vm_id in
      then_do-Confined (record { same = λ _ _. refl })
        (λ _ files. then_do-Confined (written-Confined _ _ _ _ files in_user) (λ _ files.
          then_do-Confined (written-Confined _ _ _ _ files in_meta)
            (λ _ files. made_image-Confined _ _ _ files in_iso)))

  -- `delete_cloud_init_iso` after `generate_cloud_init_iso`, whether that failed or not, returns and
  -- leaves none of the three files of the VM and every other file as it was before both, where the three
  -- can be removed.
  pub delete_cloud_init_iso-generate_cloud_init_iso :
      (safe_dump : CloudConfig → Text) (vm_id : Text) (config : CloudInitConfig) (files : Files)
      → All (λ p. machine.unlink p ≡ true) (files_of vm_data_dir vm_id)
      → let generated =
          (generate_cloud_init_iso machine vm_data_dir safe_dump vm_id config files).1 in
        ((delete_cloud_init_iso machine vm_data_dir vm_id generated).0 ≡ ok tt)
        × ((path : FilePath)
            → (delete_cloud_init_iso machine vm_data_dir vm_id generated).1 path
              ≡ (if contains path (files_of vm_data_dir vm_id) then none else files path))
  delete_cloud_init_iso-generate_cloud_init_iso safe_dump vm_id config files removable =
      let (returned, left) = delete_cloud_init_iso_lem vm_id _ removable in
      (
        returned,
        λ path.
            left path
            ∙ unless_contained
                ((generate_cloud_init_iso-Confined safe_dump vm_id config files).same path),
      )
