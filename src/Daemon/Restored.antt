-- ===== src/Daemon/Restored.antt =====
-- What auth_change_state of src/auth.c and client_list_add_client keep besides the client list, so
-- that an import of the state file keeps the list sound.
use nodogsplash.Prelude.{
  List, Option, [], ap, arith, false, refl, subst, sym, ℕ, ◌+◌, ◌==◌, ◌∙◌, ◌∷◌, ◌≡◌, ◌≢◌,
}
use nodogsplash.CString.{CString}
use nodogsplash.Auth.{auth_change_state, set_state}
use nodogsplash.Auth.Effects.{authenticate_branch_lem, block_branch_lem, deauthenticate_branch_lem}
use nodogsplash.Auth.FirewallLoops.{add_client-IsInSync}
use nodogsplash.Auth.FirewallSync.{IsInSync, change_state-IsInSync}
use nodogsplash.Auth.Invariant.{change_state-IsWellFormed}
use nodogsplash.Auth.Transitions.{
  Outcome, change_state_cases, locked_out, logged_in, logged_out, refused,
}
use nodogsplash.Client.{Client}
use nodogsplash.ClientList.{client_list_delete, client_reset, has_node}
use nodogsplash.ClientList.Add.{add_client-IsWellFormed, config-add_client}
use nodogsplash.ClientList.Members.{IsMember-find}
use nodogsplash.ClientList.Shape.{Ascending, Ascending-le, IsWellFormed}
use nodogsplash.Config.{Config}
use nodogsplash.Firewall.Installed.{IsReliable}
use nodogsplash.Firewall.Marks.{start_marks, start_marks_succeeds}
use nodogsplash.StateFile.Keeps.{IsKept}
use nodogsplash.Web.Handlers.Writes.{write-IsInSync, write-IsWellFormed}
use nodogsplash.World.{Env, Marks, World}

-- The configured marks.
abbrev pub mark_fields : Config → ℕ × ℕ × ℕ
mark_fields config = (config.fw_mark_authenticated, config.fw_mark_trusted, config.fw_mark_blocked)

Outcome-numbers :
    (env : Env) (w : World) (c : Client) (t : ℕ) (reason : Option CString) (r : World × ℕ)
    → Outcome env w c t reason r
    → (r.0.client_id ≡ w.client_id) × (mark_fields r.0.config ≡ mark_fields w.config)
unfolding set_state client_reset client_list_delete
Outcome-numbers env w c t reason r (refused e) =
    (ap (λ x. x.0.client_id) e, ap (λ x. mark_fields x.0.config) e)
Outcome-numbers env w c t reason r (logged_in p q e) =
    let k = (authenticate_branch_lem env w c reason).1 in
    (
      ap (λ x. x.0.client_id) e ∙ ap (λ v. v.client_id) k,
      ap (λ x. mark_fields x.0.config) e ∙ ap (λ v. mark_fields v.config) k,
    )
Outcome-numbers env w c t reason r (logged_out p q e) =
    let k = (deauthenticate_branch_lem env w c reason).1 in
    (
      ap (λ x. x.0.client_id) e ∙ ap (λ v. v.client_id) k,
      ap (λ x. mark_fields x.0.config) e ∙ ap (λ v. mark_fields v.config) k,
    )
Outcome-numbers env w c t reason r (locked_out p q e) =
    let (history, macs, k) = block_branch_lem env w c reason in
    (
      ap (λ x. x.0.client_id) e ∙ (ap (λ v. v.client_id) k ∙ ground arith),
      ap (λ x. mark_fields x.0.config) e ∙ (ap (λ v. mark_fields v.config) k ∙ ground arith),
    )

change_numbers :
    (env : Env) (w : World) (c : Client) (t : ℕ) (reason : Option CString)
    → ((auth_change_state env w c t reason).0.client_id ≡ w.client_id)
      × (mark_fields (auth_change_state env w c t reason).0.config ≡ mark_fields w.config)
change_numbers env w c t reason =
    Outcome-numbers env w c t reason _ (change_state_cases env w c t reason)

-- A node that was not given out is not on the list.
fresh_node :
    (lo hi : ℕ) (cs : List Client) → Ascending (λ c. c.node) lo hi cs → has_node hi cs ≡ false
unfolding has_node
fresh_node lo hi [] h = refl
fresh_node lo hi (c ∷ cs) h =
    ground
      (arith, fresh_node (c.node + 1) hi cs h.1, Ascending-le (λ d. d.node) (c.node + 1) hi cs h.1)

-- The list stays sound, and the configured marks stay.
abbrev pub IsSound : Config → World → Type 0
IsSound config w = IsWellFormed w × (mark_fields config ≡ mark_fields w.config)

abbrev pub IsSoundAndSynced : Config → World → Type 0
IsSoundAndSynced config w = IsInSync w × (mark_fields config ≡ mark_fields w.config)

pub IsSound-IsKept : (env : Env) (config : Config) → IsKept env (IsSound config)
IsSound-IsKept env config = record {
  write = λ f same w node p. (write-IsWellFormed f same w node p.0, p.1);
  add = λ w mac ip p. (
    add_client-IsWellFormed env w mac ip p.0,
    p.1 ∙ sym (ap mark_fields (config-add_client env w mac ip)),
  );
  fresh = λ w p. fresh_node 0 w.next_node w.clients p.0.nodes;
  change = λ w c node t reason found p. (
    change_state-IsWellFormed env w c t reason p.0,
    p.1 ∙ sym (change_numbers env w c t reason).1,
  );
  number = λ w c t reason. (change_numbers env w c t reason).0;
}

pub IsSoundAndSynced-IsKept :
    (env : Env) (config : Config) → IsReliable env → IsKept env (IsSoundAndSynced config)
IsSoundAndSynced-IsKept env config rel = record {
  write = λ f same w node p. (write-IsInSync f same w node p.0, p.1);
  add = λ w mac ip p. (
    add_client-IsInSync env w mac ip p.0,
    p.1 ∙ sym (ap mark_fields (config-add_client env w mac ip)),
  );
  fresh = λ w p. fresh_node 0 w.next_node w.clients p.0.shape.nodes;
  change = λ w c node t reason found p. (
    change_state-IsInSync env w c t reason rel
        (IsMember-find (λ d. d.node == node) 0 w.next_node w.clients c p.0.shape.nodes found) p.0,
    p.1 ∙ sym (change_numbers env w c t reason).1,
  );
  number = λ w c t reason. (change_numbers env w c t reason).0;
}

-- Whether the check of the marks passes depends on the configured marks only.
pub same_check :
    (c d : Config) (m k : Marks) (a b : ℕ)
    → mark_fields c ≡ mark_fields d
    → (start_marks c m a).1 ≡ 0
    → (start_marks d k b).1 ≡ 0
same_check c d m k a b e h = (start_marks_succeeds d k b).1 (
    subst
      (λ (t : ℕ × ℕ × ℕ).
        ((t.2 ≢ t.1) × (t.1 ≢ t.0) × (t.0 ≢ t.2)) × ((t.2 ≢ 0) × (t.1 ≢ 0) × (t.0 ≢ 0)))
      e ((start_marks_succeeds c m a).0 h))
