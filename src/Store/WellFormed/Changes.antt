-- ===== src/Store/WellFormed/Changes.antt =====
-- UPDATE and DELETE statements of src/agentvm/db/store.py leave a well-formed database.
use agent_vm.Base.{ℤ, Bool, text_eq, nat_eq, string_eq, ◌≡◌, refl, ap, sym, ◌==◌, some, arith}
use agent_vm.Python.Result.{Result, ok, >>=-eq-ok, ok-injective}
use agent_vm.Python.Text.{Text}
use agent_vm.Python.Value.{Object, dumps}
use agent_vm.Sql.{update, delete, bind_int, with_int}
use agent_vm.Sql.Laws.{delete-Nodup}
use agent_vm.Sql.Keys.{delete-IsKeyed, update-IsKeyed}
use agent_vm.Store.Schema.{Database, SessionRow, VmRow, ProxyRow, RuleRow}
use agent_vm.Store.Codec.{int_field}
use agent_vm.Store.WellFormed.Statements.{KeepsRows}
use agent_vm.Store.Rows.{set_vm, set_proxy}
use agent_vm.Store.Sessions.{
  delete_vms_of, delete_proxies_of, delete_folders_of, delete_rules_of, delete_session_row,
  delete_allocation_of,
}
use agent_vm.Store.Vms.{delete_vm_row}
use agent_vm.Store.Logs.{mark_removed}

pub delete_vms_of-KeepsRows : (id : Text) → KeepsRows (delete_vms_of id)
unfolding delete_vms_of
delete_vms_of-KeepsRows id db a db' w h =
    let e : db' ≡ record db { vms = delete (λ r. r.session_id == id) db.vms } = cc in
    let d = delete-Nodup (λ (r : VmRow). r.id) (λ r. r.session_id == id) db.vms w.vms in
    rw e (assumption d)

pub delete_vm_row-KeepsRows : (id : Text) → KeepsRows (delete_vm_row id)
unfolding delete_vm_row
delete_vm_row-KeepsRows id db a db' w h =
    let e : db' ≡ record db { vms = delete (λ r. r.id == id) db.vms } = cc in
    let d = delete-Nodup (λ (r : VmRow). r.id) (λ r. r.id == id) db.vms w.vms in rw e (assumption d)

pub delete_session_row-KeepsRows : (id : Text) → KeepsRows (delete_session_row id)
unfolding delete_session_row
delete_session_row-KeepsRows id db a db' w h =
    let e : db' ≡ record db { sessions = delete (λ r. r.id == id) db.sessions } = cc in
    let d = delete-Nodup (λ (r : SessionRow). r.id) (λ r. r.id == id) db.sessions w.sessions in
    rw e (assumption d)

pub delete_proxies_of-KeepsRows : (id : Text) → KeepsRows (delete_proxies_of id)
unfolding delete_proxies_of
delete_proxies_of-KeepsRows id db a db' w h =
    let table = db.proxies in
    let rows = delete (λ r. r.session_id == id) table.rows in
    let e : db' ≡ record db { proxies = record table { rows = rows } } = cc in
    let d =
      delete-Nodup (λ (r : ProxyRow). r.session_id) (λ r. r.session_id == id) table.rows
        w.proxies in
    let k = delete-IsKeyed (λ (r : ProxyRow). r.id) table (λ r. r.session_id == id) w.proxy_keys in
    rw e (assumption (d, k))

pub delete_folders_of-KeepsRows : (id : Text) → KeepsRows (delete_folders_of id)
unfolding delete_folders_of
delete_folders_of-KeepsRows id db a db' w h =
    let table = db.shared_folders in
    let rows = delete (λ r. r.session_id == id) table.rows in
    let e : db' ≡ record db { shared_folders = record table { rows = rows } } = cc in
    let d = delete-Nodup (λ r. r.session_id) (λ r. r.session_id == id) table.rows w.folders in
    let k = delete-IsKeyed (λ r. r.id) table (λ r. r.session_id == id) w.folder_keys in
    rw e (assumption (d, k))

pub delete_rules_of-KeepsRows : (id : Text) → KeepsRows (delete_rules_of id)
unfolding delete_rules_of
delete_rules_of-KeepsRows id db a db' w h =
    let table = db.network_rules in
    let rows = delete (λ r. r.session_id == id) table.rows in
    let e : db' ≡ record db { network_rules = record table { rows = rows } } = cc in
    let k = delete-IsKeyed (λ r. r.id) table (λ r. r.session_id == id) w.rule_keys in
    rw e (assumption k)

pub delete_allocation_of-KeepsRows : (id : Text) → KeepsRows (delete_allocation_of id)
unfolding delete_allocation_of
delete_allocation_of-KeepsRows id db a db' w h =
    let table = db.resource_allocations in
    let rows = delete (λ r. r.vm_id == id) table.rows in
    let e : db' ≡ record db { resource_allocations = record table { rows = rows } } = cc in
    let d = delete-Nodup (λ r. r.vm_id) (λ r. r.vm_id == id) table.rows w.allocations in
    let k = delete-IsKeyed (λ r. r.id) table (λ r. r.vm_id == id) w.allocation_keys in
    rw e (assumption (d, k))

pub mark_removed-KeepsRows : (p : RuleRow → Bool) (now : Text) → KeepsRows (mark_removed p now)
unfolding mark_removed
mark_removed-KeepsRows p now db a db' w h =
    let table = db.network_rules in
    let rows = update p (λ r. record r { removed_at = some now }) table.rows in
    let e : db' ≡ record db { network_rules = record table { rows = rows } } = cc in
    let k =
      update-IsKeyed (λ r. r.id) table p (λ r. record r { removed_at = some now }) (λ r. refl)
        w.rule_keys in
    rw e (assumption k)

pub set_vm-id :
    (merged : Object) (change : VmRow → VmRow)
    → set_vm merged ≡ ok change
    → (r : VmRow) → (change r).id ≡ r.id
unfolding set_vm
set_vm-id merged change h r =
    let (cpu, _, h₁) = >>=-eq-ok (int_field "cpu_cores" merged) _ h in
    let (memory, _, h₂) = >>=-eq-ok (int_field "memory_mb" merged) _ h₁ in
    let (disk, _, h₃) = >>=-eq-ok (int_field "disk_gb" merged) _ h₂ in
    let (payload, _, h₄) = >>=-eq-ok (dumps merged) _ h₃ in
    let (_, _, h₅) = >>=-eq-ok (bind_int cpu) _ h₄ in
    let (_, _, h₆) = >>=-eq-ok (bind_int memory) _ h₅ in
    let (_, _, h₇) = >>=-eq-ok (bind_int disk) _ h₆ in
    ap (λ (f : VmRow → VmRow). (f r).id) (sym (ok-injective h₇))

pub set_proxy-keys :
    (merged : Object) (change : ProxyRow → ProxyRow)
    → set_proxy merged ≡ ok change
    → (r : ProxyRow) → ((change r).id ≡ r.id) × ((change r).session_id ≡ r.session_id)
unfolding set_proxy
set_proxy-keys merged change h r = ground arith

pub with_int-KeepsRows :
    {A : Type 0} (z : ℤ) (statement : ℤ → Database → Result (A × Database))
    → ((bound : ℤ) → KeepsRows (statement bound))
    → KeepsRows (λ db. with_int z λ bound. statement bound db)
with_int-KeepsRows z statement keeps db a db' w h =
    let (bound, _, h') = >>=-eq-ok (bind_int z) _ h in keeps bound db a db' w h'
