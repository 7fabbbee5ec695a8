-- ===== src/Opamp/Manager/Laws.antt =====
-- The agent's record of its configuration against the file, over any remote configurations.
use k_o11y_otel_gateway.Prelude.{
  Bool, true, false, not, ◌&&◌, ◌||◌, Option, none, some, List, [], ◌∷◌, String, if◌then◌else◌, ◌≡◌,
  subst, sym, ap, ◌∙◌, refl, ◌⊎◌, inl, inr, arith, Option-cases,
}
use k_o11y_otel_gateway.Prelude.Results.{ok}
use k_o11y_otel_gateway.Opamp.Files.{Files, IsWritable}
use k_o11y_otel_gateway.Opamp.Reload.{Restart}
use k_o11y_otel_gateway.Opamp.Reload.Laws.{reload-IsSettled}
use k_o11y_otel_gateway.Opamp.Manager.{
  AgentRemoteConfig, ServerClient, Hashing, lookup, update_current_hash, apply_remote_config, apply,
  send, on_remote_config_handler, collector_config_key,
}

module _ {F B C H : Type 0} (files : Files F B) (restart : Restart F C) (hashing : Hashing B H)
    (path : String) where
  -- The file has these contents, and once a remote configuration has been received the recorded hash
  -- is theirs.
  pub record IsInSync (contents : B) (s : ServerClient F C H) : Type 0 where
    pub stored : files.read_file path s.fs ≡ ok contents
    pub hashed : s.initial_config_received ≡ true → s.current_hash ≡ hashing.file_hash contents

  -- What is in the file after a message.
  abbrev pub settled : B → B → Bool → B
  settled old contents changed = if changed then contents else old

  module _ (disk : IsWritable files) where
    apply_remote_config-IsInSync :
        (old contents : B) (s : ServerClient F C H)
        → IsInSync old s
        → IsInSync
            (settled old contents (apply_remote_config files restart hashing path contents s).0.0)
            (apply_remote_config files restart hashing path contents s).1
    unfolding apply_remote_config update_current_hash
    apply_remote_config-IsInSync old contents s h =
        let settles =
          reload-IsSettled files restart path disk old contents s.fs s.collector h.stored in
        ground (arith, h, settles)

    received-changed :
        (contents : B) (s : ServerClient F C H) (old : B)
        → IsInSync old s
        → ((apply_remote_config files restart hashing path contents s).1.initial_config_received ≡ (
            s.initial_config_received
            || (apply_remote_config files restart hashing path contents s).0.0))
          × ((apply_remote_config files restart hashing path contents s).1.running_nop_config
              ≡ s.running_nop_config)
    unfolding apply_remote_config update_current_hash
    received-changed contents s old h =
        let settles =
          reload-IsSettled files restart path disk old contents s.fs s.collector h.stored in
        ground (arith, h, settles)

    -- The collector's part of a remote configuration, if it has one.
    abbrev pub body_of : AgentRemoteConfig B H → Option B
    body_of remote = elim remote.config_map [ none ↦ none | some m ↦ lookup collector_config_key m ]

    abbrev pub IsChosen : AgentRemoteConfig B H → B → B → Type 0
    IsChosen remote old b = (b ≡ old) ⊎ (body_of remote ≡ some b)

    record IsApplied (remote : AgentRemoteConfig B H) (old : B) (s : ServerClient F C H)
        (r : (Bool × Option String) × ServerClient F C H) : Type 0 where
      contents : B
      chosen : IsChosen remote old contents
      in_sync : IsInSync contents r.1
      received : r.1.initial_config_received ≡ (s.initial_config_received || r.0.0)
      same_nop : r.1.running_nop_config ≡ s.running_nop_config

    apply_without :
        (remote : AgentRemoteConfig B H) (s : ServerClient F C H)
        → body_of remote ≡ none
        → apply files restart hashing path remote s ≡ ((false, none), s)
    unfolding apply
    apply_without remote s h = ground (arith, h)

    apply_with :
        (remote : AgentRemoteConfig B H) (s : ServerClient F C H) (contents : B)
        → body_of remote ≡ some contents
        → apply files restart hashing path remote s
          ≡ apply_remote_config files restart hashing path contents s
    unfolding apply
    apply_with remote s contents h = ground (arith, h)

    settled-IsChosen :
        (remote : AgentRemoteConfig B H) (old contents : B) (changed : Bool)
        → body_of remote ≡ some contents
        → IsChosen remote old (settled old contents changed)
    settled-IsChosen remote old contents true h = inr h
    settled-IsChosen remote old contents false h = inl refl

    apply-IsApplied :
        (remote : AgentRemoteConfig B H) (old : B) (s : ServerClient F C H)
        → IsInSync old s
        → IsApplied remote old s (apply files restart hashing path remote s)
    apply-IsApplied remote old s h = elim (Option-cases (body_of remote)) [
      | inl without ↦
          subst (IsApplied remote old s) (sym (apply_without remote s without)) (record {
            contents = old;
            chosen = inl refl;
            in_sync = h;
            received = ground arith;
            same_nop = refl;
          })
      | inr (contents, with_body) ↦
          let r = apply_remote_config files restart hashing path contents s in
          let (received, same_nop) = received-changed contents s old h in
          subst (IsApplied remote old s) (sym (apply_with remote s contents with_body)) (record {
            contents = settled old contents r.0.0;
            chosen = settled-IsChosen remote old contents r.0.0 with_body;
            in_sync = apply_remote_config-IsInSync old contents s h;
            received = received;
            same_nop = same_nop;
          })
    ]

    -- What the handler keeps of what `Apply` left.
    handler_fields :
        (update_effective : Option String) (remote : AgentRemoteConfig B H) (s : ServerClient F C H)
        → let r = apply files restart hashing path remote s in
          let s' =
            (on_remote_config_handler files restart hashing path none update_effective remote
              s).1 in
          (s'.fs ≡ r.1.fs)
          × (s'.current_hash ≡ r.1.current_hash)
          × (s'.initial_config_received ≡ r.1.initial_config_received)
          × (s'.running_nop_config ≡ (r.1.running_nop_config && not r.0.0))
    unfolding on_remote_config_handler send
    handler_fields update_effective remote s = ground arith

    -- Messages of the server in turn, each with what sending the effective configuration answers. The
    -- status of each is sent without an error.
    unfoldable pub run :
        List (Option String × AgentRemoteConfig B H) → ServerClient F C H → ServerClient F C H
    run [] s = s
    run ((answer, remote) ∷ messages) s =
        run messages (on_remote_config_handler files restart hashing path none answer remote s).1

    -- The contents stem from the file at first or from a message.
    abbrev pub IsOffered : List (Option String × AgentRemoteConfig B H) → B → B → Type 0
    IsOffered [] old b = b ≡ old
    IsOffered ((answer, remote) ∷ messages) old b =
        (c : B) × IsChosen remote old c × IsOffered messages c b

    -- Over any remote configurations, whether the collector restarts with them or not, the file holds
    -- the contents at first or those of a message, once a configuration was received the recorded
    -- hash is that of the file, and the no-operation configuration counts as running exactly until one
    -- has been received, if it did so at first, on a disk whose writes succeed and when the server takes
    -- each status.
    pub run-IsInSync :
        (messages : List (Option String × AgentRemoteConfig B H)) (old : B) (s : ServerClient F C H)
        → IsInSync old s
        → s.running_nop_config ≡ not s.initial_config_received
        → (b : B) × IsOffered messages old b
          × IsInSync b (run messages s)
          × ((run messages s).running_nop_config ≡ not (run messages s).initial_config_received)
    unfolding run
    run-IsInSync [] old s h nop = (old, refl, h, nop)
    run-IsInSync ((answer, remote) ∷ messages) old s h nop =
        let applied = apply-IsApplied remote old s h in
        let (same_fs, same_hash, same_received, nop') = handler_fields answer remote s in
        let s' = (on_remote_config_handler files restart hashing path none answer remote s).1 in
        let synced : IsInSync applied.contents s' = record {
          stored = ap (files.read_file path) same_fs ∙ applied.in_sync.stored;
          hashed = λ r. same_hash ∙ applied.in_sync.hashed (sym same_received ∙ r);
        } in
        let (b, stems, last, nops) =
          run-IsInSync messages applied.contents s' synced
            (ground (arith, nop, nop', same_received, applied.received, applied.same_nop)) in
        (b, (applied.contents, applied.chosen, stems), last, nops)
