-- ===== src/Capacity/Readings.antt =====
-- What src/agentvm/host/capacity.py reads of the host: /proc/cpuinfo, /proc/meminfo, `os.cpu_count`
-- and `os.statvfs`.
use agent_vm.Base.{
  ℕ, ◌*◌, ◌/◌, ◌^◌, Option, none, some, List, [], ◌∷◌, length, filter, ℤ, pos, negsuc,
  if◌then◌else◌, nat_beq,
}
use agent_vm.Python.Result.{Result, ok, raise, value_error}
use agent_vm.Python.Text.{Text, codes, starts_with, parse_int}
use agent_vm.Python.Lines.{split_lines, words}

-- `path.read_text(encoding="utf-8")`: the text, an `OSError`, or bytes that are no UTF-8
pub data Reading : Type 0 where
  contents : Text → Reading
  unreadable undecodable : Reading

pub record StatVfs : Type 0 where
  pub f_frsize : ℕ
  pub f_blocks : ℕ
  pub f_bavail : ℕ

-- The host, as the manager finds it; `statvfs` is none where it raises `OSError`.
pub record Host : Type 0 where
  pub cpuinfo : Reading
  pub meminfo : Reading
  pub cpu_count : Option ℕ
  pub statvfs : Option StatVfs

-- `fallback if fallback is not None else 1`
unfoldable pub fallback : Option ℕ → ℕ
fallback none = 1
fallback (some n) = n

-- the sum over the lines of cpuinfo
unfoldable pub count_processors : Text → ℕ
count_processors cpuinfo =
    length (filter (λ line. starts_with line (codes "processor")) (split_lines cpuinfo))

-- `_read_cpu_total`; a decoding error is not an `OSError`, and is raised
unfoldable pub cpu_total : Reading → Option ℕ → Result ℕ
unfolding fallback
cpu_total (contents cpuinfo) cpu_count =
    let count = count_processors cpuinfo in
    if nat_beq count 0 then ok (fallback cpu_count) else ok count
cpu_total unreadable cpu_count = ok (fallback cpu_count)
cpu_total undecodable cpu_count = raise value_error

abbrev pub read_cpu_total : Host → Result ℕ
read_cpu_total host = cpu_total host.cpuinfo host.cpu_count

-- `n // 1024`, which rounds down
unfoldable pub kib_to_mib : ℤ → ℤ
kib_to_mib (pos n) = pos (n / 1024)
kib_to_mib (negsuc n) = negsuc (n / 1024)

abbrev pub or_zero : Result ℤ → ℤ
unfolding kib_to_mib
or_zero (ok total_kb) = kib_to_mib total_kb
or_zero (raise _) = pos 0

-- `int(parts[1])`: an `IndexError` and a `ValueError` are caught alike
unfoldable pub second_int : List Text → ℤ
unfolding kib_to_mib parse_int
second_int (_ ∷ part ∷ _) = or_zero (parse_int part)
second_int _ = pos 0

-- the loop over the lines of meminfo
unfoldable pub find_total : List Text → ℤ
find_total [] = pos 0
find_total (line ∷ lines) =
    if starts_with line (codes "MemTotal:") then second_int (words line) else find_total lines

-- `_read_memory_total_mb`
unfoldable pub memory_total : Reading → ℤ
memory_total (contents meminfo) = find_total (split_lines meminfo)
memory_total _ = pos 0

abbrev pub read_memory_total_mb : Host → ℤ
read_memory_total_mb host = memory_total host.meminfo

-- `_read_disk_capacity_gb`
unfoldable pub disk_capacity : Option StatVfs → ℕ × ℕ
disk_capacity none = (0, 0)
disk_capacity (some stat) =
    (stat.f_frsize * stat.f_blocks / 1024 ^ 3, stat.f_frsize * stat.f_bavail / 1024 ^ 3)

abbrev pub read_disk_capacity_gb : Host → ℕ × ℕ
read_disk_capacity_gb host = disk_capacity host.statvfs
