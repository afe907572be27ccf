-- ===== src/Server/Roster/Steps.antt =====
-- Whole runs of the operations of src/stigmergy/server/roster.py, on connections of any tenants.
use stigmergy.Prelude.{ℕ, ◌≡◌, Bool, true, Option, List, [], Text}
use stigmergy.Server.Roster.{Roster}
use stigmergy.Server.Roster.Names.{Form}
use stigmergy.Server.Roster.People.{
  create_principal, update_principal, set_disabled, delete_principal,
}
use stigmergy.Server.Roster.Groups.{
  Elsewhere, create_group, update_group, delete_group, set_channel, delete_channel,
}
use stigmergy.Server.Roster.Tokens.{principal_for_token, issue_token, revoke_token}
use stigmergy.Server.Roster.Sessions.{
  open_session, session_principal, close_session, bootstrap_admin,
}
use stigmergy.Server.Roster.Effects.{Effect, Effects, nothing, and_then}
use stigmergy.Server.Roster.Effects.People.{
  create_principal-Effects, update_principal-Effects, set_disabled-Effects,
  delete_principal-Effects,
}
use stigmergy.Server.Roster.Effects.Others.{
  create_group-Effects, update_group-Effects, delete_group-Effects, set_channel-Effects,
  delete_channel-Effects, issue_token-Effects, revoke_token-Effects, principal_for_token-Effects,
  open_session-Effects, session_principal-Effects, close_session-Effects, bootstrap_admin-Effects,
}

module _ (issuable : ℕ → Bool) (lower upper digest : Text → Text) where
  -- `issuable` tells the ids that the random draws give from here on.
  pub data Step (r : Roster) : Roster → Type 0 where
    create :
        (t now : ℕ) (actor subject : Text) (form : Form)
        → Step r (create_principal lower t now actor subject form r).1
    change :
        (t now : ℕ) (actor subject : Text) (form : Form)
        → Step r (update_principal lower t now actor subject form r).1
    disable :
        (t now : ℕ) (actor subject : Text) (disabled : Bool)
        → Step r (set_disabled lower t now actor subject disabled r).1
    dismiss : (t : ℕ) (subject : Text) → Step r (delete_principal lower t subject r).1
    add_group :
        (t now : ℕ) (actor name description : Text)
        → Step r (create_group t now actor name description r).1
    describe_group :
        (t : ℕ) (name description : Text) → Step r (update_group t name description r).1
    drop_group : (t : ℕ) (name : Text) (e : Elsewhere) → Step r (delete_group t name e r).1
    map_channel :
        (t now : ℕ) (actor id : Text) (given : Option (List (Option Text)))
        → Step r (set_channel upper t now actor id given r).1
    unmap_channel : (t : ℕ) (id : Text) → Step r (delete_channel upper t id r).1
    issue :
        (t now : ℕ) (actor subject label : Text) (id : ℕ) (secret : Text) (expires_at : Option ℕ)
        → issuable id ≡ true
        → Step r (issue_token lower digest t now actor subject label id secret expires_at r).1
    revoke : (t now : ℕ) (id : Option ℕ) → Step r (revoke_token t now id r).1
    present_token : (now : ℕ) (token : Text) → Step r (principal_for_token digest now token r).1
    begin_session :
        (now : ℕ) (token value : Text) → Step r (open_session digest now token value r).1
    present_session : (now : ℕ) (value : Text) → Step r (session_principal digest now value r).1
    end_session : (now : ℕ) (value : Text) → Step r (close_session digest now value r)
    bootstrap :
        (t now : ℕ) (actor subject name : Text) (id : ℕ) (secret : Text)
        → issuable id ≡ true
        → Step r (bootstrap_admin lower digest t now actor subject name id secret r).1

  pub data Course (r : Roster) : Roster → Type 0 where
    begun : Course r r
    then_step : {mid end : Roster} → Course r mid → Step mid end → Course r end

  Step-Effects : {r end : Roster} → Step r end → Effects issuable r end
  Step-Effects {r} (create t now actor subject form) =
      create_principal-Effects issuable lower t now actor subject form r
  Step-Effects {r} (change t now actor subject form) =
      update_principal-Effects issuable lower t now actor subject form r
  Step-Effects {r} (disable t now actor subject disabled) =
      set_disabled-Effects issuable lower t now actor subject disabled r
  Step-Effects {r} (dismiss t subject) = delete_principal-Effects issuable lower t 0 [] subject r
  Step-Effects {r} (add_group t now actor name description) =
      create_group-Effects issuable t now actor name description r
  Step-Effects {r} (describe_group t name description) =
      update_group-Effects issuable t name description r
  Step-Effects {r} (drop_group t name e) = delete_group-Effects issuable t name e r
  Step-Effects {r} (map_channel t now actor id given) =
      set_channel-Effects issuable upper t now actor id given r
  Step-Effects {r} (unmap_channel t id) = delete_channel-Effects issuable upper t id r
  Step-Effects {r} (issue t now actor subject label id secret expires_at i) =
      issue_token-Effects issuable lower digest t now actor subject label id secret expires_at r i
  Step-Effects {r} (revoke t now id) = revoke_token-Effects issuable t now id r
  Step-Effects {r} (present_token now token) =
      principal_for_token-Effects issuable digest now token r
  Step-Effects {r} (begin_session now token value) =
      open_session-Effects issuable digest now token value r
  Step-Effects {r} (present_session now value) =
      session_principal-Effects issuable digest now value r
  Step-Effects {r} (end_session now value) = close_session-Effects issuable digest now value r
  Step-Effects {r} (bootstrap t now actor subject name id secret i) =
      bootstrap_admin-Effects issuable lower digest t now actor subject name id secret r i

  module _ {ℓ} (P : Roster → Type ℓ)
      (kept : (r end : Roster) → Effect issuable r end → P r → P end) where
    effects_keep : {r end : Roster} → Effects issuable r end → P r → P end
    effects_keep nothing p = p
    effects_keep (and_then es e) p = kept _ _ e (effects_keep es p)

    -- What every effect keeps, every run keeps.
    pub run_keeps : {r end : Roster} → Course r end → P r → P end
    run_keeps begun p = p
    run_keeps (then_step run s) p = effects_keep (Step-Effects s) (run_keeps run p)
