-- ===== src/VmManager/Lifecycle.antt =====
-- `VMManager` (src/agentvm/vm/manager.py) over the `MetadataStore` of src/agentvm/db/store.py.
use agent_vm.Base.{
  true, false, none, some, [], map, contains, pos, ◌≡◌, refl, ◌≢◌, ◌∙◌, sym, text_eq, string_eq,
}
use agent_vm.Python.Result
use agent_vm.Python.Result.{Result, ok, raise, value_error}
use agent_vm.Python.Exec.{pure, lift, continue, ◌>>◌}
use agent_vm.Python.Text.{Text, codes}
use agent_vm.Python.Value.{int_of, finite, object, to_str, dumps, has_bytes}
use agent_vm.Store.Schema.{VmRow}
use agent_vm.Store.Codec.{
  require, text_field, int_field, as_int, decode_row, set_defaults, payload_object,
}
use agent_vm.Store.Connection.{Store}
use agent_vm.Store.Rows.{vm_row, bind_vm, decode_vm}
use agent_vm.Store.Records.{get_allocation_by_vm}
use agent_vm.Store.Vms
use agent_vm.Store.Vms.Lookup.{get_vm-create_vm, get_vm-delete_vm}
use agent_vm.VmManager.{MetadataStore, VmManager, create_vm, destroy_vm, get_vm_status}
use agent_vm.VmManager.Status.{
  VmSpec, VmStatus, vm_record, status_of, recorded_status, provided, overlay,
}
use agent_vm.Python.Dict.{lookup, insert, setdefault}

-- The three methods of the metadata store; `now` is what its clock says.
abbrev pub metadata_methods : Text → MetadataStore Store
metadata_methods now = record {
  create_vm = some (λ vm. Vms.create_vm now vm >> pure tt);
  delete_vm = some Vms.delete_vm;
  get_vm = some Vms.get_vm;
}

-- The row of a new VM.
abbrev pub row_of : Text → VmSpec → VmRow
row_of now spec = record {
  id = spec.vm_id;
  session_id = spec.session_id;
  name = [];
  status = codes "creating";
  base_image = spec.image_id;
  cpu_cores = spec.cpu_cores;
  memory_mb = spec.memory_mb;
  disk_gb = spec.disk_gb;
  created_at = now;
  payload = object (vm_record spec);
}

-- The status of a new VM, before its runtime state is asked for.
abbrev pub new_status : VmSpec → VmStatus
new_status spec = record {
  vm_id = spec.vm_id;
  session_id = spec.session_id;
  state = codes "creating";
  cpu_percent = finite (codes "0.0") (pos 0);
  memory_mb = spec.memory_mb;
}

pub vm_row-vm_record :
    (now : Text) (spec : VmSpec) → vm_row now (vm_record spec) ≡ ok (row_of now spec)
unfolding vm_row vm_record require text_field int_field as_int lookup to_str dumps has_bytes
vm_row-vm_record now spec = refl

recorded_status-row :
    (now : Text) (spec : VmSpec)
    → recorded_status spec.vm_id (decode_vm (row_of now spec)) ≡ ok (new_status spec)
unfolding recorded_status decode_vm decode_row set_defaults payload_object vm_record setdefault
    lookup to_str int_of insert
recorded_status-row now spec = refl

-- The manager over that store.
abbrev pub over_metadata : {R : Type 0} → Text → VmManager Store R → VmManager Store R
over_metadata now m = record m { store = metadata_methods now }

continue-lift :
    {S A B : Type 0} (g : A → Result B) (o : Result A × S)
    → (continue (λ a. lift (g a)) o).0 ≡ Result.◌>>=◌ o.0 g
continue-lift g (ok a, s) = refl
continue-lift g (raise error, s) = refl

returned_after :
    {A B S : Type 0} (b : B) (o : Result A × S) (a : A)
    → o.0 ≡ ok a
    → ((continue (λ _. pure b) (continue (λ _. pure tt) o)).0 ≡ ok b)
      × ((continue (λ _. pure b) (continue (λ _. pure tt) o)).1 ≡ o.1)
returned_after b (ok x, s) a returned = (refl, refl)
returned_after b (raise error, s) a returned = absurd cc

module _ {R : Type 0} (now : Text) (m : VmManager Store R) where
  get_vm_status-get_vm :
      (id : Text) (s : Store)
      → (get_vm_status (over_metadata now m) id s).0
        ≡ Result.◌>>=◌ (Vms.get_vm id s).0 (status_of m.to_float m.runtime_state_provider id)
  unfolding get_vm_status
  get_vm_status-get_vm id s =
      continue-lift (status_of m.to_float m.runtime_state_provider id) (Vms.get_vm id s)

  pub create_vm-metadata :
      (spec : VmSpec) (s : Store) (id : Text)
      → (Vms.create_vm now (vm_record spec) s).0 ≡ ok id
      → ((create_vm (over_metadata now m) spec s).0
          ≡ ok (record { vm_id = spec.vm_id; ssh_host = codes "127.0.0.1"; ssh_port = pos 22 }))
        × ((create_vm (over_metadata now m) spec s).1 ≡ (Vms.create_vm now (vm_record spec) s).1)
  unfolding create_vm
  create_vm-metadata spec s id made =
      returned_after _ (Vms.create_vm now (vm_record spec) s) id made

  module _ (s : Store) (connected : s.connected ≡ true) where
    -- Over an open metadata store, `create_vm` of a VM whose id is new and whose sizes fit 64 bits
    -- returns the connection, and `get_vm_status` then returns the VM with its id, session and memory
    -- in the state "creating", with what the runtime state provider says over it.
    pub get_vm_status-create_vm :
        (spec : VmSpec)
        → bind_vm (row_of now spec) ≡ ok tt
        → contains spec.vm_id (map (λ r. r.id) s.database.vms) ≡ false
        → ((create_vm (over_metadata now m) spec s).0
            ≡ ok (record { vm_id = spec.vm_id; ssh_host = codes "127.0.0.1"; ssh_port = pos 22 }))
          × ((get_vm_status
                (over_metadata now m)
                spec.vm_id
                (create_vm (over_metadata now m) spec s).1).0
              ≡ Result.◌>>=◌
                  (provided spec.vm_id m.runtime_state_provider)
                  (overlay m.to_float (new_status spec)))
    get_vm_status-create_vm spec fits fresh =
        let (made, reads) =
          get_vm-create_vm s connected now (vm_record spec) (row_of now spec)
            (vm_row-vm_record now spec) fits fresh in
        let (returned, kept) = create_vm-metadata spec s (row_of now spec).id made in
        (
          returned,
          get_vm_status-get_vm spec.vm_id _
              ∙ rw (kept, reads) (unfold status_of in rw (recorded_status-row now spec)),
        )

    -- Over an open metadata store, after `destroy_vm` the VM has no status and no allocation, and
    -- every other VM has the status that it had.
    pub get_vm_status-destroy_vm :
        (id : Text)
        → ((destroy_vm (over_metadata now m) id s).0 ≡ ok tt)
          × ((get_vm_status (over_metadata now m) id (destroy_vm (over_metadata now m) id s).1).0
              ≡ raise value_error)
          × ((get_allocation_by_vm id (destroy_vm (over_metadata now m) id s).1).0 ≡ ok none)
          × ((other : Text)
              → other ≢ id
              → (get_vm_status
                  (over_metadata now m)
                  other
                  (destroy_vm (over_metadata now m) id s).1).0
                ≡ (get_vm_status (over_metadata now m) other s).0)
    unfolding destroy_vm
    get_vm_status-destroy_vm id =
        let (done, gone, freed, others) = get_vm-delete_vm s connected id in
        (
          done,
          get_vm_status-get_vm id _ ∙ rw gone (unfold status_of in refl),
          freed,
          λ other ne.
              get_vm_status-get_vm other _
              ∙ rw (others other ne) (sym (get_vm_status-get_vm other s)),
        )
