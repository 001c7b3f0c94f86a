-- ===== src/CloudInit/Commands.antt =====
-- The shell reads the mount point as one word in each command that names it
-- (src/agentvm/storage/cloud_init.py).
use agent_vm.Base.{map, some, List, [], ◌∷◌, ◌++◌, ◌≡◌, refl, ap, ◌∙◌, sym, append-nil}
use agent_vm.Python.Shell.{quote, Token, word, operator, between, tokens, step, tokens-quote}
use agent_vm.Python.Text.{Text, codes}
use agent_vm.CloudInit.{CloudInitConfig, cloud_config, mkdir_command, fstab_command, mount_command}

-- `mkdir -p` on the mount point
abbrev pub mkdir_tokens : Text → List Token
mkdir_tokens mount = word (codes "mkdir") ∷ word (codes "-p") ∷ word mount ∷ []

-- A search of `/etc/fstab` for the mount point, or else an entry added to it.
abbrev pub fstab_tokens : Text → List Token
fstab_tokens mount =
    word (codes "grep")
    ∷ word (codes "-q")
    ∷ word mount
    ∷ word (codes "/etc/fstab")
    ∷ operator (codes "||")
    ∷ word (codes "echo")
    ∷ word mount
    ∷ word (codes "9p")
    ∷ word (codes "trans=virtio,version=9p2000.L")
    ∷ word (codes "0")
    ∷ word (codes "0")
    ∷ operator (codes ">>")
    ∷ word (codes "/etc/fstab")
    ∷ []

abbrev pub mount_tokens : Text → List Token
mount_tokens mount =
    word (codes "mount") ∷ word mount ∷ operator (codes "||") ∷ word (codes "true") ∷ []

abbrev pub restart_tokens : List Token
restart_tokens =
    word (codes "systemctl")
    ∷ word (codes "restart")
    ∷ word (codes "systemd-networkd")
    ∷ operator (codes "||")
    ∷ word (codes "true")
    ∷ []

mkdir-tokens : (mount : Text) → tokens between (mkdir_command mount) ≡ some (mkdir_tokens mount)
unfolding mkdir_command tokens step
mkdir-tokens mount =
    ap (λ t. tokens between (codes "mkdir -p " ++ t)) (sym (append-nil (quote mount)))
    ∙ rw (tokens-quote mount []) refl

mount-tokens : (mount : Text) → tokens between (mount_command mount) ≡ some (mount_tokens mount)
unfolding mount_command tokens step
mount-tokens mount = rw (tokens-quote mount (codes " || true")) refl

fstab-tokens : (mount : Text) → tokens between (fstab_command mount) ≡ some (fstab_tokens mount)
unfolding fstab_command tokens step
fstab-tokens mount =
    let line = codes " 9p trans=virtio,version=9p2000.L 0 0 >> /etc/fstab" in
    rw
      (
        tokens-quote mount (codes " /etc/fstab || echo " ++ (quote mount ++ line)),
        tokens-quote mount line,
      )
      refl

-- A POSIX shell reads the commands of `runcmd`, for every mount point, as the words that are meant:
-- the mount point stands in each as one word, which is the mount point itself.
pub runcmd-tokens :
    (c : CloudInitConfig)
    → map (tokens between) ((cloud_config c).runcmd)
      ≡ some (mkdir_tokens c.shared_folder_mount)
        ∷ some (fstab_tokens c.shared_folder_mount)
        ∷ some (mount_tokens c.shared_folder_mount)
        ∷ some restart_tokens
        ∷ []
unfolding cloud_config
runcmd-tokens c =
    let mount = c.shared_folder_mount in
    rw (mkdir-tokens mount, fstab-tokens mount, mount-tokens mount) (unfold tokens step in refl)
