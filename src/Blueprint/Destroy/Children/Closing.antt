-- ===== src/Blueprint/Destroy/Children/Closing.antt =====
-- What closing a child of a destroyed step (`finish_subsumed_steps`, hyops/blueprint/command.py)
-- leaves on the disk.
use hybridops_core.Prelude.{
  String, false, [], ◌∷◌, some, contains, snoc, length, length-append, ◌≡◌, refl, sym, ap, ◌∙◌,
  arith, ◌==◌, if◌then◌else◌,
}
use hybridops_core.Text.{is_empty}
use hybridops_core.Raises.{Raises, ok, value_error, other_error, >>=-elim_ok}
use hybridops_core.Value.{str, dict, Fields, end, get}
use hybridops_core.Value.Update.{set_field, get-set_field, get-drop_fields}
use hybridops_core.State.Refs.{split_module_state_ref}
use hybridops_core.State.Store.{Disk, Loaded, loaded, not_found, failed, read_module_state}
use hybridops_core.State.Store.Laws.{read_module_state-write_module_state}
use hybridops_core.Blueprint.Destroy.Children.{
  Child, DestroyRun, fail_child, updated_payload, transient_keys, destroyed_payload, noted_write,
  write_child, close_child, finish_child,
}

-- A payload says that its module is destroyed, with no outputs, and by which step.
pub record SaysDestroyed (parent : String) (payload : Fields) : Type 0 where
  pub status : get "status" payload ≡ some (str "destroyed")
  pub outputs : get "outputs" payload ≡ some (dict end)
  pub by_step : get "destroyed_by_blueprint_step" payload ≡ some (str parent)

set_instance-get :
    (key child_instance : String) (kept : Fields)
    → ("state_instance" == key) ≡ false
    → get key (
        if is_empty child_instance
        then kept
        else set_field "state_instance" (str child_instance) kept)
      ≡ get key kept
set_instance-get key child_instance kept apart =
    ground (arith, get-set_field "state_instance" key (str child_instance) kept)

destroyed_payload-get :
    (key child_ref child_instance parent now : String) (previous : Fields)
    → ("state_instance" == key) ≡ false
    → contains key transient_keys ≡ false
    → get key (destroyed_payload child_ref child_instance parent now previous)
      ≡ get key (updated_payload child_ref parent now previous)
unfolding destroyed_payload
destroyed_payload-get key child_ref child_instance parent now previous a b =
    set_instance-get key child_instance _ a ∙ get-drop_fields transient_keys key _ b

destroyed_payload-SaysDestroyed :
    (child_ref child_instance parent now : String) (previous : Fields)
    → SaysDestroyed parent (destroyed_payload child_ref child_instance parent now previous)
destroyed_payload-SaysDestroyed child_ref child_instance parent now previous = record {
  status =
      destroyed_payload-get "status" child_ref child_instance parent now previous refl refl
      ∙ get-set_field _ _ _ _
      ∙ get-set_field _ _ _ _
      ∙ get-set_field _ _ _ _
      ∙ get-set_field _ _ _ _
      ∙ get-set_field _ _ _ _;
  outputs =
      destroyed_payload-get "outputs" child_ref child_instance parent now previous refl refl
      ∙ get-set_field _ _ _ _
      ∙ get-set_field _ _ _ _
      ∙ get-set_field _ _ _ _;
  by_step =
      destroyed_payload-get "destroyed_by_blueprint_step" child_ref child_instance parent now
        previous refl refl
      ∙ get-set_field _ _ _ _;
}

one_more-failure :
    (run after : DestroyRun) (child : Child) (reason : String)
    → fail_child child reason run ≡ after
    → (after.required_failures ≡ run.required_failures)
    → ⊥
one_more-failure run after child reason h same =
    let grown : snoc run.required_failures child.step.id ≡ run.required_failures =
      ap (λ r. r.required_failures) h ∙ same in
    omega (arith, ap length grown, length-append run.required_failures (child.step.id ∷ []))

-- A write that adds no failure returned its disk.
noted_write-ok :
    (child : Child) (parent : String) (run after : DestroyRun) (write : Raises Disk)
    → noted_write child parent run write ≡ after
    → after.required_failures ≡ run.required_failures
    → (disk : Disk) × (write ≡ ok disk) × (after.disk ≡ disk)
noted_write-ok child parent run after (ok disk) h same = (disk, refl, sym (ap (λ r. r.disk) h))
noted_write-ok child parent run after (value_error error) h same =
    elim (one_more-failure run after child _ h same) [ ]
noted_write-ok child parent run after (other_error error) h same =
    elim (one_more-failure run after child _ h same) [ ]

write_child-SaysDestroyed :
    (clock : String → String) (parent : String) (child : Child) (child_ref child_instance : String)
    (previous : Fields) (run after : DestroyRun)
    → write_child clock parent child child_ref child_instance previous run ≡ after
    → after.required_failures ≡ run.required_failures
    → (state : Fields) × (read_module_state after.disk child_ref child_instance ≡ loaded state)
      × SaysDestroyed parent state
unfolding write_child
write_child-SaysDestroyed clock parent child child_ref child_instance previous run after h same =
    let now = clock child.step.id in
    let payload = destroyed_payload child_ref child_instance parent now previous in
    let (disk, e, d) = noted_write-ok child parent run after _ h same in
    let read =
      read_module_state-write_module_state child_ref child_instance payload run.disk disk e in
    (
      payload,
      ap (λ k. read_module_state k child_ref child_instance) d ∙ read,
      destroyed_payload-SaysDestroyed child_ref child_instance parent now previous,
    )

close_child-SaysDestroyed :
    (clock : String → String) (parent : String) (child : Child) (child_ref child_instance : String)
    (before : Loaded) (run after : DestroyRun)
    → close_child clock parent child child_ref child_instance before run ≡ after
    → after.required_failures ≡ run.required_failures
    → (state : Fields) × (read_module_state after.disk child_ref child_instance ≡ loaded state)
      × SaysDestroyed parent state
unfolding close_child
close_child-SaysDestroyed clock parent child child_ref child_instance (loaded previous) run after h
      same =
    write_child-SaysDestroyed clock parent child child_ref child_instance previous run after h same
close_child-SaysDestroyed clock parent child child_ref child_instance (not_found path) run after h
      same =
    write_child-SaysDestroyed clock parent child child_ref child_instance end run after h same
close_child-SaysDestroyed clock parent child child_ref child_instance (failed error) run after h
      same =
    elim (one_more-failure run after child _ h same) [ ]

-- When closing a child of a destroyed step adds no failure, the child's state on the disk is then
-- readable, and says that it is destroyed, with no outputs, and by which step.
pub finish_child-SaysDestroyed :
    (clock : String → String) (parent : String) (child : Child) (run after : DestroyRun)
    (parts : String × String)
    → finish_child clock parent child run ≡ ok after
    → split_module_state_ref child.step.module_ref child.step.state_instance ≡ ok parts
    → after.required_failures ≡ run.required_failures
    → (state : Fields) × (read_module_state after.disk parts.0 parts.1 ≡ loaded state)
      × SaysDestroyed parent state
unfolding finish_child
finish_child-SaysDestroyed clock parent child run after parts h e same =
    >>=-elim_ok (split_module_state_ref child.step.module_ref child.step.state_instance) _ h
      λ found e' h'.
        let same_parts : found ≡ parts = ok_inj (sym e' ∙ e) in
        let closed : close_child clock parent child parts.0 parts.1
              (read_module_state run.disk parts.0 parts.1) run
            ≡ after =
          ok_inj (
            ap
              (λ p.
                ok
                  (close_child clock parent child p.0 p.1 (read_module_state run.disk p.0 p.1) run))
              (sym same_parts)
            ∙ h') in
        close_child-SaysDestroyed clock parent child parts.0 parts.1 _ run after closed same
  where
    ok_inj : {A : Type 0} {a b : A} → ok a ≡ ok b → a ≡ b
    ok_inj p = cc
