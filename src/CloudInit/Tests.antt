-- ===== src/CloudInit/Tests.antt =====
-- Runs of src/agentvm/storage/cloud_init.py.
use agent_vm.Base.{
  true, any, Option, none, some, [], ◌∷◌, ◌++◌, map, contains, filter, if◌then◌else◌, ◌≡◌, refl,
  text_eq,
}
use mathlib.Core.Option
use agent_vm.Python.Lines.{cut, attach}
use agent_vm.Python.Paths.{FilePath, path_eq, under, path_text, components_of}
use agent_vm.Python.Result.{ok, raise, os_error, dependency_error}
use agent_vm.Python.Shell.{between, tokens, quote}
use agent_vm.Python.Text.{Text, codes, join}
use agent_vm.CloudInit.{
  CloudInitConfig, CloudConfig, cloud_config, network_command, fstab_command, build_user_data,
  build_meta_data, Files, whole, image, not_installed, failed, Machine, then_do, vm_dir, iso_path,
  user_data_path, meta_data_path, generate_cloud_init_iso, delete_cloud_init_iso,
}
use agent_vm.CloudInit.Commands.{
  runcmd-tokens, mkdir_tokens, fstab_tokens, mount_tokens, restart_tokens,
}
use agent_vm.CloudInit.Bootcmd.{network_reading, bootcmd-reading}
use agent_vm.Python.Shell.HereDocument.{
  Reading, read_command, here_document, ending_word, ends_quoted,
}
use agent_vm.CloudInit.Lifecycle.{files_of, delete_cloud_init_iso-generate_cloud_init_iso}
use agent_vm.CloudInit.Returned.{generate_cloud_init_iso-ok}

abbrev quoted_mount : CloudInitConfig
quoted_mount = record {
  ssh_public_key = codes "ssh-ed25519 AAAA";
  hostname = codes "vm-a";
  proxy_base_url = codes "http://10.0.0.1:23760";
  proxy_dummy_key = codes "sk-dummy";
  shared_folder_mount = codes "/mnt/it's; shared";
  network_gateway = codes "10.0.0.1";
  network_address = codes "10.0.0.5/24";
  dns_servers = codes "1.1.1.1" ∷ codes "9.9.9.9" ∷ [];
}

-- The host name stands for the whole document.
abbrev dump : CloudConfig → Text
dump c = c.hostname

abbrev data_dir : FilePath
data_dir = record { root = codes "/"; components = codes "vms" ∷ [] }

-- A machine on which everything succeeds; the image is the two texts, one after the other.
both_texts : Option Text → Option Text → Text
both_texts (some user) (some meta) = user ++ meta
both_texts _ _ = []

abbrev machine : Machine
machine = record {
  mkdir = λ _. true;
  unlink = λ _. true;
  write = λ _ _. whole;
  genisoimage = λ user meta. image (both_texts user meta);
}

-- On this one genisoimage fails and leaves half an image.
abbrev failing : Machine
failing = record {
  mkdir = λ _. true;
  unlink = λ _. true;
  write = λ _ _. whole;
  genisoimage = λ user meta. failed (some (codes "half"));
}

abbrev uninstalled : Machine
uninstalled = record {
  mkdir = λ _. true;
  unlink = λ _. true;
  write = λ _ _. whole;
  genisoimage = λ user meta. not_installed;
}

no_files : Files
no_files _ = none

results :
    ((generate_cloud_init_iso machine data_dir dump (codes "7") quoted_mount no_files).0
      ≡ ok (codes "/vms/vm-7/cloud-init.iso"))
    × ((generate_cloud_init_iso failing data_dir dump (codes "7") quoted_mount no_files).0
        ≡ raise os_error)
    × ((generate_cloud_init_iso uninstalled data_dir dump (codes "7") quoted_mount no_files).0
        ≡ raise dependency_error)
    × (fstab_command (codes "/mnt/shared")
        ≡ codes
            "grep -q /mnt/shared /etc/fstab || echo /mnt/shared 9p trans=virtio,version=9p2000.L 0 0 >> /etc/fstab")
    × (network_command quoted_mount
        ≡ codes
            "cat > /etc/systemd/network/10-eth0.network << 'EOF'\n[Match]\nName=eth0\n[Network]\nAddress=10.0.0.5/24\nGateway=10.0.0.1\nDNS=1.1.1.1, 9.9.9.9\nEOF")
unfolding generate_cloud_init_iso then_do iso_path under path_text components_of fstab_command
    network_command quote join filter cut attach vm_dir
results = (refl, refl, refl, refl, refl)

-- A host name with a line end adds a line to the meta-data, which is written without `yaml.safe_dump`.
meta_data_line :
    build_meta_data (codes "7") (codes "a\npublic-keys: k")
    ≡ codes "instance-id: 7\nlocal-hostname: a\npublic-keys: k\n"
unfolding build_meta_data
meta_data_line = refl

runcmd-tokens_example :
    map (tokens between) ((cloud_config quoted_mount).runcmd)
    ≡ some (mkdir_tokens (codes "/mnt/it's; shared"))
      ∷ some (fstab_tokens (codes "/mnt/it's; shared"))
      ∷ some (mount_tokens (codes "/mnt/it's; shared"))
      ∷ some restart_tokens
      ∷ []
runcmd-tokens_example = runcmd-tokens quoted_mount

abbrev failed_files : Files
failed_files = (generate_cloud_init_iso failing data_dir dump (codes "7") quoted_mount no_files).1

delete_cloud_init_iso-generate_cloud_init_iso_example :
    ((delete_cloud_init_iso failing data_dir (codes "7") failed_files).0 ≡ ok tt)
    × ((path : FilePath)
        → (delete_cloud_init_iso failing data_dir (codes "7") failed_files).1 path
          ≡ (if contains path (files_of data_dir (codes "7")) then none else no_files path))
delete_cloud_init_iso-generate_cloud_init_iso_example =
    delete_cloud_init_iso-generate_cloud_init_iso failing data_dir dump (codes "7") quoted_mount
      no_files (refl, (refl, (refl, tt)))

generated :
    (generate_cloud_init_iso machine data_dir dump (codes "7") quoted_mount no_files).0
    ≡ ok (codes "/vms/vm-7/cloud-init.iso")
unfolding generate_cloud_init_iso then_do iso_path under path_text components_of join filter cut
    attach vm_dir
generated = refl

generate_cloud_init_iso-ok_example :
    let after =
      (generate_cloud_init_iso machine data_dir dump (codes "7") quoted_mount no_files).1 in
    let user_data = build_user_data dump quoted_mount in
    let meta_data = build_meta_data (codes "7") (codes "vm-a") in
    (codes "/vms/vm-7/cloud-init.iso" ≡ path_text (iso_path data_dir (codes "7")))
    × (after (user_data_path data_dir (codes "7")) ≡ some user_data)
    × (after (meta_data_path data_dir (codes "7")) ≡ some meta_data)
    × (content : Text) × (image (both_texts (some user_data) (some meta_data)) ≡ image content)
    × (after (iso_path data_dir (codes "7")) ≡ some content)
generate_cloud_init_iso-ok_example =
    generate_cloud_init_iso-ok machine data_dir dump (codes "7") quoted_mount no_files generated

bootcmd-reading_example :
    map read_command ((cloud_config quoted_mount).bootcmd)
    ≡ some (network_reading quoted_mount) ∷ []
bootcmd-reading_example =
    bootcmd-reading quoted_mount (unfold any in refl) (unfold any in refl)
      (unfold any in (refl, (refl, tt)))

-- A gateway with a line `EOF` in it ends the input there, and its next line is a command.
after_gateway :
    Option.map
      (λ (r : Reading). r.after)
      (read_command
        (network_command (record quoted_mount { network_gateway = codes "g\nEOF\nreboot" })))
    ≡ some (codes "reboot" ∷ codes "DNS=1.1.1.1, 9.9.9.9" ∷ codes "EOF" ∷ [])
unfolding read_command network_command here_document ending_word ends_quoted cut attach tokens join
after_gateway = refl
