-- ===== src/CloudInit/Bootcmd.antt =====
-- The shell reads the network file in the command of `bootcmd` (src/agentvm/storage/cloud_init.py).
use agent_vm.Base.{false, some, List, [], ◌∷◌, ◌++◌, map, any, nat_beq, text_eq, All, ◌≡◌, refl}
use agent_vm.Python.Lines.{cut}
use agent_vm.Python.Lines.Pieces.{IsPiece, cut-join, join-IsPiece}
use agent_vm.Python.Shell.{word, operator, tokens, step}
use agent_vm.Python.Shell.HereDocument.{
  Reading, read_command, here_document, ending_word, ends_quoted,
}
use agent_vm.Python.Text.{Text, codes, join}
use agent_vm.CloudInit.{CloudInitConfig, cloud_config, network_command}

-- The lines of the file of systemd-networkd that the configuration asks for.
abbrev pub network_lines : CloudInitConfig → List Text
network_lines c =
    codes "[Match]"
    ∷ codes "Name=eth0"
    ∷ codes "[Network]"
    ∷ (codes "Address=" ++ c.network_address)
    ∷ (codes "Gateway=" ++ c.network_gateway)
    ∷ (codes "DNS=" ++ join (codes ", ") c.dns_servers)
    ∷ []

-- `cat` into the file, with the lines as its input, and nothing after it.
abbrev pub network_reading : CloudInitConfig → Reading
network_reading c = record {
  command =
      word (codes "cat")
      ∷ operator (codes ">")
      ∷ word (codes "/etc/systemd/network/10-eth0.network")
      ∷ operator (codes "<<")
      ∷ word (codes "EOF")
      ∷ [];
  input = network_lines c;
  after = [];
}

abbrev first_line : Text
first_line = codes "cat > /etc/systemd/network/10-eth0.network << 'EOF'"

abbrev HasPlainValues : CloudInitConfig → Type 0
HasPlainValues c =
    IsPiece 10 c.network_address × IsPiece 10 c.network_gateway × All (IsPiece 10) c.dns_servers

command-lines :
    (c : CloudInitConfig)
    → network_command c ≡ join (codes "\n") (first_line ∷ (network_lines c ++ codes "EOF" ∷ []))
unfolding network_command join
command-lines c = refl

cut-network_command :
    (c : CloudInitConfig)
    → HasPlainValues c
    → cut (nat_beq 10) (network_command c) ≡ first_line ∷ (network_lines c ++ codes "EOF" ∷ [])
unfolding any
cut-network_command c (address, gateway, servers) = rw (command-lines c) (
    cut-join 10 first_line (network_lines c ++ codes "EOF" ∷ []) (
      refl,
      (
        refl,
        (
          refl,
          (
            refl,
            (
              address,
              (gateway, (join-IsPiece 10 (codes ", ") c.dns_servers refl servers, (refl, tt))),
            ),
          ),
        ),
      ),
    ))

-- Where no line ends inside the address, the gateway or the name servers, a POSIX shell reads the
-- command of `bootcmd` as `cat` into the file of systemd-networkd, with the lines that are meant as
-- its input, whatever characters the values hold, and no command after it.
pub bootcmd-reading :
    (c : CloudInitConfig)
    → any (nat_beq 10) c.network_address ≡ false
    → any (nat_beq 10) c.network_gateway ≡ false
    → All (λ server. any (nat_beq 10) server ≡ false) c.dns_servers
    → map read_command ((cloud_config c).bootcmd) ≡ some (network_reading c) ∷ []
unfolding cloud_config read_command here_document ending_word ends_quoted tokens step
bootcmd-reading c address gateway servers =
    rw (cut-network_command c (address, gateway, servers)) refl
