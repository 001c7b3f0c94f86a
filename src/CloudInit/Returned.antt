-- ===== src/CloudInit/Returned.antt =====
-- What a return of `generate_cloud_init_iso` says of the image
-- (src/agentvm/storage/cloud_init.py).
use agent_vm.Base.{
  Bool, true, false, Option, some, List, [], ◌∷◌, ◌++◌, ◌==◌, if◌then◌else◌, ◌≡◌, refl, ap, ◌∙◌,
  sym, text_eq, beq_refl, filter,
}
use agent_vm.Python.Lines.{cut, attach}
use agent_vm.Python.Paths.{FilePath, path_eq, texts_beq, under, path_text, components_of}
use agent_vm.Python.Result.{ok, raise, os_error}
use agent_vm.Python.Text.{Text, codes}
use agent_vm.CloudInit.{
  CloudInitConfig, CloudConfig, build_user_data, build_meta_data, Files, put, Written, whole,
  not_opened, cut_short, Made, image, not_installed, failed, Machine, Effect, then_do, written,
  vm_dir, iso_path, user_data_path, meta_data_path, made_image, generate_cloud_init_iso,
}

texts_beq-append : (xs ys zs : List Text) → texts_beq (xs ++ ys) (xs ++ zs) ≡ texts_beq ys zs
texts_beq-append [] ys zs = refl
texts_beq-append (x ∷ xs) ys zs = rw (beq_refl x) (texts_beq-append xs ys zs)

under_beq :
    (dir : FilePath) (a b : Text)
    → (under dir a == under dir b) ≡ texts_beq (components_of a) (components_of b)
unfolding under
under_beq dir a b =
    rw (beq_refl dir.root) (texts_beq-append dir.components (components_of a) (components_of b))

module _ (dir : FilePath) (vm_id : Text) where
  apart :
      ((user_data_path dir vm_id == meta_data_path dir vm_id) ≡ false)
      × ((user_data_path dir vm_id == iso_path dir vm_id) ≡ false)
      × ((meta_data_path dir vm_id == iso_path dir vm_id) ≡ false)
  unfolding iso_path
  apart =
      let base = vm_dir dir vm_id in
      (
        under_beq base (codes "user-data") (codes "meta-data")
            ∙ unfold components_of cut attach filter in refl,
        under_beq base (codes "user-data") (codes "cloud-init.iso")
            ∙ unfold components_of cut attach filter in refl,
        under_beq base (codes "meta-data") (codes "cloud-init.iso")
            ∙ unfold components_of cut attach filter in refl,
      )

directory-then :
    {B : Type 0} (made : Bool) (files : Files) (next : Unit {0} → Files → Effect B) {t : B}
    → (then_do ((if made then ok tt else raise os_error), files) next).0 ≡ ok t
    → then_do ((if made then ok tt else raise os_error), files) next ≡ next tt files
unfolding then_do
directory-then true files next h = refl
directory-then false files next h = absurd cc

written-then :
    {B : Type 0} (p : FilePath) (content : Text) (w : Written) (files : Files)
    (next : Unit {0} → Files → Effect B) {t : B}
    → (then_do (written p content w files) next).0 ≡ ok t
    → then_do (written p content w files) next ≡ next tt (put p (some content) files)
unfolding then_do
written-then p content whole files next h = refl
written-then p content not_opened files next h = absurd cc
written-then p content (cut_short text) files next h = absurd cc

made_image-ok :
    (p : FilePath) (made : Made) (files : Files) {t : Text}
    → (made_image p made files).0 ≡ ok t
    → (content : Text) × (made ≡ image content)
      × (t ≡ path_text p)
      × ((made_image p made files).1 ≡ put p (some content) files)
made_image-ok p (image content) files h = (content, refl, cc, refl)
made_image-ok p not_installed files h = absurd cc
made_image-ok p (failed left) files h = absurd cc

put_here : (p : FilePath) (content : Option Text) (files : Files) → put p content files p ≡ content
put_here p content files = rw (beq_refl p) refl

put_elsewhere :
    (p q : FilePath) (content : Option Text) (files : Files)
    → (q == p) ≡ false
    → put p content files q ≡ files q
put_elsewhere p q content files other = rw other refl

module _ (machine : Machine) (dir : FilePath) (safe_dump : CloudConfig → Text) (vm_id : Text)
    (config : CloudInitConfig) (files : Files) where
  abbrev user_data_of : Text
  user_data_of = build_user_data safe_dump config

  abbrev meta_data_of : Text
  meta_data_of = build_meta_data vm_id config.hostname

  abbrev user_written : Files
  user_written = put (user_data_path dir vm_id) (some user_data_of) files

  abbrev both_written : Files
  both_written = put (meta_data_path dir vm_id) (some meta_data_of) user_written

  abbrev last_step : Effect Text
  last_step =
      made_image (iso_path dir vm_id)
        (machine.genisoimage (both_written (user_data_path dir vm_id))
          (both_written (meta_data_path dir vm_id)))
        both_written

  generate_cloud_init_iso-last_step :
      {t : Text}
      → (generate_cloud_init_iso machine dir safe_dump vm_id config files).0 ≡ ok t
      → generate_cloud_init_iso machine dir safe_dump vm_id config files ≡ last_step
  unfolding generate_cloud_init_iso
  generate_cloud_init_iso-last_step h =
      let made = directory-then (machine.mkdir (vm_dir dir vm_id)) files _ h in
      let user =
        written-then (user_data_path dir vm_id) user_data_of _ files _
          (sym (ap (λ e. e.0) made) ∙ h) in
      let meta =
        written-then (meta_data_path dir vm_id) meta_data_of _ _ _
          (sym (ap (λ e. e.0) (made ∙ user)) ∙ h) in
      made ∙ user ∙ meta

  both_written_lem :
      (both_written (user_data_path dir vm_id) ≡ some user_data_of)
      × (both_written (meta_data_path dir vm_id) ≡ some meta_data_of)
  both_written_lem =
      let (user_meta, _, _) = apart dir vm_id in
      (
        put_elsewhere (meta_data_path dir vm_id) (user_data_path dir vm_id) _ user_written user_meta
            ∙ put_here (user_data_path dir vm_id) _ files,
        put_here (meta_data_path dir vm_id) _ user_written,
      )

  -- Where `generate_cloud_init_iso` returns, it returns the path of the image, and user-data, meta-data
  -- and the image stand in the VM's directory: the two texts built from the arguments, and the image that
  -- genisoimage makes of exactly these two.
  pub generate_cloud_init_iso-ok :
      {t : Text}
      → (generate_cloud_init_iso machine dir safe_dump vm_id config files).0 ≡ ok t
      → let after = (generate_cloud_init_iso machine dir safe_dump vm_id config files).1 in
        let user_data = build_user_data safe_dump config in
        let meta_data = build_meta_data vm_id config.hostname in
        (t ≡ path_text (iso_path dir vm_id))
        × (after (user_data_path dir vm_id) ≡ some user_data)
        × (after (meta_data_path dir vm_id) ≡ some meta_data)
        × (content : Text) × (machine.genisoimage (some user_data) (some meta_data) ≡ image content)
        × (after (iso_path dir vm_id) ≡ some content)
  generate_cloud_init_iso-ok h =
      let last = generate_cloud_init_iso-last_step h in
      let (user, meta) = both_written_lem in
      let (_, user_iso, meta_iso) = apart dir vm_id in
      let (content, made, returned, after) = made_image-ok _ _ _ (sym (ap (λ e. e.0) last) ∙ h) in
      let left : (generate_cloud_init_iso machine dir safe_dump vm_id config files).1
          ≡ put (iso_path dir vm_id) (some content) both_written =
        ap (λ e. e.1) last ∙ after in
      (
        returned,
        ap (λ f. f (user_data_path dir vm_id)) left
            ∙ put_elsewhere (iso_path dir vm_id) (user_data_path dir vm_id) _ both_written user_iso
            ∙ user,
        ap (λ f. f (meta_data_path dir vm_id)) left
            ∙ put_elsewhere (iso_path dir vm_id) (meta_data_path dir vm_id) _ both_written meta_iso
            ∙ meta,
        content,
        rw (user, meta) at made,
        ap (λ f. f (iso_path dir vm_id)) left ∙ put_here (iso_path dir vm_id) _ both_written,
      )
