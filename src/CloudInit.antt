-- ===== src/CloudInit.antt =====
-- `CloudInitManager` (src/agentvm/storage/cloud_init.py). The files are those of the whole machine.
pub mod Commands
pub mod Bootcmd
pub mod Lifecycle
pub mod Returned
mod Tests
use agent_vm.Base.{
  Bool, true, false, Option, none, some, List, [], ◌∷◌, ◌++◌, Eq, ◌==◌, if◌then◌else◌,
}
use agent_vm.Python.Paths.{FilePath, path_eq, path_of, under, path_text}
use agent_vm.Python.Result.{Result, ok, raise, os_error, dependency_error}
use agent_vm.Python.Shell.{quote}
use agent_vm.Python.Text.{Text, codes, join}

pub record CloudInitConfig : Type 0 where
  pub ssh_public_key : Text
  pub hostname : Text
  pub proxy_base_url : Text
  pub proxy_dummy_key : Text
  pub shared_folder_mount : Text
  pub network_gateway : Text
  pub network_address : Text
  pub dns_servers : List Text

-- The dict `cloud_config`; an entry of `write_files` is its path and its content.
pub record CloudConfig : Type 0 where
  pub hostname : Text
  pub ssh_authorized_keys : List Text
  pub write_files : List (Text × Text)
  pub runcmd : List Text
  pub bootcmd : List Text

unfoldable pub proxy_env_block : CloudInitConfig → Text
proxy_env_block c =
    codes "OPENAI_BASE_URL="
    ++ (c.proxy_base_url
        ++ (codes "\nOPENAI_API_KEY="
            ++ (c.proxy_dummy_key
                ++ (codes "\nANTHROPIC_BASE_URL="
                    ++ (c.proxy_base_url
                        ++ (codes "\nANTHROPIC_API_KEY=" ++ (c.proxy_dummy_key ++ codes "\n")))))))

unfoldable pub mkdir_command : Text → Text
mkdir_command mount = codes "mkdir -p " ++ quote mount

unfoldable pub fstab_command : Text → Text
fstab_command mount =
    codes "grep -q "
    ++ (quote mount
        ++ (codes " /etc/fstab || echo "
            ++ (quote mount ++ codes " 9p trans=virtio,version=9p2000.L 0 0 >> /etc/fstab")))

unfoldable pub mount_command : Text → Text
mount_command mount = codes "mount " ++ (quote mount ++ codes " || true")

unfoldable pub network_command : CloudInitConfig → Text
network_command c =
    codes
      "cat > /etc/systemd/network/10-eth0.network << 'EOF'\n[Match]\nName=eth0\n[Network]\nAddress="
    ++ (c.network_address
        ++ (codes "\nGateway="
            ++ (c.network_gateway
                ++ (codes "\nDNS=" ++ (join (codes ", ") c.dns_servers ++ codes "\nEOF")))))

unfoldable pub cloud_config : CloudInitConfig → CloudConfig
cloud_config c = record {
  hostname = c.hostname;
  ssh_authorized_keys = c.ssh_public_key ∷ [];
  write_files = (codes "/etc/environment.d/agentvm-proxy.conf", proxy_env_block c) ∷ [];
  runcmd =
      mkdir_command c.shared_folder_mount
      ∷ fstab_command c.shared_folder_mount
      ∷ mount_command c.shared_folder_mount
      ∷ codes "systemctl restart systemd-networkd || true"
      ∷ [];
  bootcmd = network_command c ∷ [];
}

-- `_build_user_data`; `yaml.safe_dump` is an argument
unfoldable pub build_user_data : (CloudConfig → Text) → CloudInitConfig → Text
build_user_data safe_dump c = codes "#cloud-config\n" ++ safe_dump (cloud_config c)

-- `_build_meta_data`
unfoldable pub build_meta_data : Text → Text → Text
build_meta_data vm_id hostname =
    codes "instance-id: " ++ (vm_id ++ (codes "\nlocal-hostname: " ++ (hostname ++ codes "\n")))

-- The text or the bytes of the file that is at a path.
abbrev pub Files : Type 0
Files = FilePath → Option Text

abbrev pub put : FilePath → Option Text → Files → Files
put path content files other = if other == path then content else files other

-- What comes of a write: the whole file, nothing, or a file that ends early.
pub data Written : Type 0 where
  whole not_opened : Written
  cut_short : Text → Written

-- What comes of genisoimage, with what it leaves at the output path.
pub data Made : Type 0 where
  image : Text → Made
  not_installed : Made
  failed : Option Text → Made

-- What the machine answers: whether `mkdir` and `unlink` raise no `OSError`, and the outcome of a write
-- and of genisoimage on the contents of its two files.
pub record Machine : Type 0 where
  pub mkdir : FilePath → Bool
  pub unlink : FilePath → Bool
  pub write : FilePath → Text → Written
  pub genisoimage : Option Text → Option Text → Made

-- A call's result and the files that it leaves.
abbrev pub Effect : Type 0 → Type 0
Effect A = Result A × Files

unfoldable pub then_do : {A B : Type 0} → Effect A → (A → Files → Effect B) → Effect B
then_do (raise error, files) next = (raise error, files)
then_do (ok value, files) next = next value files

abbrev pub written : FilePath → Text → Written → Files → Effect (Unit {0})
written path content whole files = (ok tt, put path (some content) files)
written path content not_opened files = (raise os_error, files)
written path content (cut_short text) files = (raise os_error, put path (some text) files)

-- `_vm_dir`
unfoldable pub vm_dir : FilePath → Text → FilePath
vm_dir vm_data_dir vm_id = under vm_data_dir (codes "vm-" ++ vm_id)

-- `_iso_path`
unfoldable pub iso_path : FilePath → Text → FilePath
iso_path vm_data_dir vm_id = under (vm_dir vm_data_dir vm_id) (codes "cloud-init.iso")

abbrev pub user_data_path : FilePath → Text → FilePath
user_data_path vm_data_dir vm_id = under (vm_dir vm_data_dir vm_id) (codes "user-data")

abbrev pub meta_data_path : FilePath → Text → FilePath
meta_data_path vm_data_dir vm_id = under (vm_dir vm_data_dir vm_id) (codes "meta-data")

-- the `try` around genisoimage, and the return
abbrev pub made_image : FilePath → Made → Files → Effect Text
made_image path (image content) files = (ok (path_text path), put path (some content) files)
made_image path not_installed files = (raise dependency_error, files)
made_image path (failed left) files = (raise os_error, put path left files)

module _ (machine : Machine) (vm_data_dir : FilePath) where
  abbrev pub make_directory : FilePath → Files → Effect (Unit {0})
  make_directory path files = (if machine.mkdir path then ok tt else raise os_error, files)

  abbrev pub write_text : FilePath → Text → Files → Effect (Unit {0})
  write_text path content files = written path content (machine.write path content) files

  unfoldable pub generate_cloud_init_iso :
      (CloudConfig → Text) → Text → CloudInitConfig → Files → Effect Text
  generate_cloud_init_iso safe_dump vm_id config files =
      let user_data = user_data_path vm_data_dir vm_id in
      let meta_data = meta_data_path vm_data_dir vm_id in
      let iso = iso_path vm_data_dir vm_id in
      then_do (make_directory (vm_dir vm_data_dir vm_id) files) (λ _ files.
        then_do (write_text user_data (build_user_data safe_dump config) files) (λ _ files.
          then_do (write_text meta_data (build_meta_data vm_id config.hostname) files) (λ _ files.
            made_image iso (machine.genisoimage (files user_data) (files meta_data)) files)))

  abbrev pub unlink_if_exists : FilePath → Option Text → Files → Effect (Unit {0})
  unlink_if_exists path none files = (ok tt, files)
  unlink_if_exists path (some _) files =
      if machine.unlink path then (ok tt, put path none files) else (raise os_error, files)

  abbrev pub delete_each : List FilePath → Files → Effect (Unit {0})
  delete_each [] files = (ok tt, files)
  delete_each (path ∷ paths) files =
      then_do (unlink_if_exists path (files path) files) (λ _ files. delete_each paths files)

  unfoldable pub delete_cloud_init_iso : Text → Files → Effect (Unit {0})
  delete_cloud_init_iso vm_id = delete_each (
      iso_path vm_data_dir vm_id
      ∷ user_data_path vm_data_dir vm_id
      ∷ meta_data_path vm_data_dir vm_id
      ∷ [])
