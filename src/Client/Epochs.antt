-- ===== src/Client/Epochs.antt =====
-- The turns in which a client of aimless-onions/src/bin/client.rs exchanges its keys.
use aimless_onions.Prelude.{
  ℕ, zero, suc, ◌≤◌, ◌≡◌, refl, ap, sym, subst, ◌∙◌, inl, inr, ◌⊎◌, none, some, List,
}
use aimless_onions.Outcome.{Outcome, ok, err, panic}
use aimless_onions.Effects.{pass, after, after-ok, looked_at}
use aimless_onions.Shared.{Epoch, next}
use aimless_onions.Crypto.{Crypto}
use aimless_onions.Net.{Http, awake}
use aimless_onions.Client.{
  Config, CurrentOrNext, current, next_epoch, ClientState, retrieve_keys, switch_epoch, epoch_turn,
  epoch_turns, start,
}
use aimless_onions.Client.Keys.{IsFetched, retrieve_keys_iff}
use aimless_onions.Net.Clock.{IsClock, awake-late}

module _ (c : Crypto) (h : Http c.PublicKey c.PrivateKey) where
  open c use {PublicKey}
  open h use {World, now, sleep}

  -- All the keys stem from one round of requests, one for each authority.
  abbrev pub IsComplete : Config → List PublicKey → Type 0
  IsComplete config keys =
      (which : CurrentOrNext) × (w : World) × (w' : World) × IsFetched c h which config.authority w
        keys w'

  switch_epoch-retrieves :
      (config : Config) (epoch : Epoch) (w : World) (s : ClientState c h) (w' : World)
      → switch_epoch c h config epoch w ≡ (ok s, w')
      → (w1 : World) × (retrieve_keys c h next_epoch config.authority
            (awake h epoch.allocation_finish_time w)
          ≡ (ok s.public_keys, w1))
        × (w' ≡ awake h epoch.switchover_time w1)
        × (s.epoch ≡ next (now w'))
  unfolding switch_epoch
  switch_epoch-retrieves config epoch w s w' e =
      let asleep : World = awake h epoch.allocation_finish_time w in
      let (keys, w1, fetched, e1) =
        after-ok (retrieve_keys c h next_epoch config.authority asleep) _ s w' e in
      let late : World = awake h epoch.switchover_time w1 in
      let made : ClientState c h = record { public_keys = keys; epoch = next (now late) } in
      let world_is : late ≡ w' = ap (λ (r : Outcome (ClientState c h) × World). r.1) e1 in
      let state_is : made ≡ s = cc in
      let keys_are : keys ≡ s.public_keys = ap (λ (t : ClientState c h). t.public_keys) state_is in
      (
        w1,
        fetched ∙ (λ i. (ok (keys_are i), w1)),
        sym world_is,
        sym (ap (λ (t : ClientState c h). t.epoch) state_is)
            ∙ ap (λ (v : World). next (now v)) world_is,
      )

  -- What a turn leaves: the state as it was, or complete keys that were fetched for the next epoch.
  epoch_turn-cases :
      (config : Config) (s s' : ClientState c h) (w w' : World)
      → epoch_turn c h config s w ≡ (ok s', w')
      → (s ≡ s') ⊎ (switch_epoch c h config s.epoch w ≡ (ok s', w'))
  unfolding epoch_turn
  epoch_turn-cases config s s' w w' = at (switch_epoch c h config s.epoch w)
    where
      at :
          (r : Outcome (ClientState c h) × World)
          → after (looked_at r) (λ o. pass (elim o [ none ↦ s | some t ↦ t ])) ≡ (ok s', w')
          → (s ≡ s') ⊎ (r ≡ (ok s', w'))
      at (ok t, v) e = inr e
      at (err x, v) e = inl cc
      at (panic, v) e = cc

  epoch_turn-IsComplete :
      (config : Config) (s s' : ClientState c h) (w w' : World)
      → epoch_turn c h config s w ≡ (ok s', w')
      → IsComplete config s.public_keys
      → IsComplete config s'.public_keys
  epoch_turn-IsComplete config s s' w w' e good = elim (epoch_turn-cases config s s' w w' e) [
    | inl same ↦ subst (λ (t : ClientState c h). IsComplete config t.public_keys) same good
    | inr switched ↦
        let (w1, fetched, late, epoch_is) =
          switch_epoch-retrieves config s.epoch w s' w' switched in
        let asleep : World = awake h s.epoch.allocation_finish_time w in
        (
          next_epoch,
          asleep,
          w1,
          (retrieve_keys_iff c h next_epoch config.authority asleep s'.public_keys w1).0 fetched,
        )
  ]

  epoch_turns-IsComplete_from :
      (n : ℕ) (config : Config) (s s' : ClientState c h) (w w' : World)
      → epoch_turns c h n config s w ≡ (ok s', w')
      → IsComplete config s.public_keys
      → IsComplete config s'.public_keys
  unfolding epoch_turns
  epoch_turns-IsComplete_from zero config s s' w w' e good =
      let same : s ≡ s' = cc in
      subst (λ (t : ClientState c h). IsComplete config t.public_keys) same good
  epoch_turns-IsComplete_from (suc n) config s s' w w' e good =
      let (t, w1, turn, e1) = after-ok (epoch_turn c h config s w) _ s' w' e in
      epoch_turns-IsComplete_from n config t s' w1 w' e1
        (epoch_turn-IsComplete config s t w w1 turn good)

  start-IsComplete :
      (config : Config) (s : ClientState c h) (w w' : World)
      → start c h config w ≡ (ok s, w')
      → IsComplete config s.public_keys
  unfolding start
  start-IsComplete config s w w' e =
      let (keys, w1, fetched, e1) =
        after-ok (retrieve_keys c h current config.authority w) _ s w' e in
      let state_is : record { public_keys = keys; epoch = next (now w1) } ≡ s = cc in
      subst (λ (t : ClientState c h). IsComplete config t.public_keys) state_is
        (current, w, w1, (retrieve_keys_iff c h current config.authority w keys w1).0 fetched)

  -- After the start and any number of turns, however many of them failed, the keys that the client
  -- holds stem from one round of requests: one key from each authority, in their order, all for the
  -- present epoch or all for the next one.
  pub epoch_turns-IsComplete :
      (n : ℕ) (config : Config) (s s' : ClientState c h) (w w1 w' : World)
      → start c h config w ≡ (ok s, w1)
      → epoch_turns c h n config s w1 ≡ (ok s', w')
      → IsComplete config s'.public_keys
  epoch_turns-IsComplete n config s s' w w1 w' started turned =
      epoch_turns-IsComplete_from n config s s' w1 w' turned
        (start-IsComplete config s w w1 started)

  -- With a clock as IsClock describes it: when every authority answers with status 200 and its key
  -- for the next epoch once the allocation is finished, a turn ends at the switchover or later with
  -- these keys and the epoch that follows then.
  pub epoch_turn-switches :
      (config : Config) (s : ClientState c h) (w w1 : World) (keys : List PublicKey)
      → IsClock h
      → IsFetched c h next_epoch config.authority (awake h s.epoch.allocation_finish_time w) keys w1
      → (epoch_turn c h config s w ≡ (
        ok (record { public_keys = keys; epoch = next (now (awake h s.epoch.switchover_time w1)) }),
        awake h s.epoch.switchover_time w1,
      ))
        × (s.epoch.switchover_time ≤ now (awake h s.epoch.switchover_time w1))
  unfolding epoch_turn switch_epoch
  epoch_turn-switches config s w w1 keys clocked fetched =
      let asleep : World = awake h s.epoch.allocation_finish_time w in
      let found = (retrieve_keys_iff c h next_epoch config.authority asleep keys w1).1 fetched in
      (rw found refl, awake-late h clocked s.epoch.switchover_time w1)
