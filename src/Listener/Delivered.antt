-- ===== src/Listener/Delivered.antt =====
-- Every event gets out of its queue once, in the order in which it was sent.
use scshell.Base.{
  ℕ, List, [], ◌∷◌, ◌++◌, map, ◌≡◌, refl, sym, ap, ◌∙◌, arith, append_nil, append_assoc, ◌==◌,
  ℕ_discrete, true, false, if◌then◌else◌, All, ◌≢◌,
}
use scshell.Session.Family.{update}
use scshell.Listener.{Sinks, new_sink, drain, send_event, SinkOp, creates, drains, sends, run_sinks}

-- The events that were drained from sink `i`, and those that were sent to it.
abbrev pub from_sink : {A : Type 0} → ℕ → List (ℕ × A) → List A
from_sink i [] = []
from_sink i ((j, e) ∷ rest) = if j == i then e ∷ from_sink i rest else from_sink i rest

abbrev pub sent_to : {A : Type 0} → ℕ → List (SinkOp A) → List A
sent_to i [] = []
sent_to i (sends listener e ∷ ops) =
    let rest = sent_to i ops in if listener.sink == i then e ∷ rest else rest
sent_to i (creates j ∷ ops) = sent_to i ops
sent_to i (drains j ∷ ops) = sent_to i ops

-- No new sink takes the place of sink `i`.
abbrev pub Lives : {A : Type 0} → ℕ → SinkOp A → Type 0
Lives i (creates j) = j ≢ i
Lives i _ = Unit {0}

module _ {A : Type 0} (i : ℕ) where
  from_sink-append :
      (xs ys : List (ℕ × A)) → from_sink i (xs ++ ys) ≡ from_sink i xs ++ from_sink i ys
  from_sink-append [] ys = refl
  from_sink-append ((j, e) ∷ xs) ys = elim (ℕ_discrete j i) [
    | yes same ↦
        let hit : (j == i) ≡ true = ground arith in
        rw (hit) (ap (λ l. e ∷ l) (from_sink-append xs ys))
    | no other ↦ let miss : (j == i) ≡ false = ground arith in rw (miss) (from_sink-append xs ys)
  ]

  from_sink-same :
      (j : ℕ) → j ≡ i → (events : List A) → from_sink i (map (λ e. (j, e)) events) ≡ events
  from_sink-same j same [] = refl
  from_sink-same j same (e ∷ events) =
      let hit : (j == i) ≡ true = ground (arith, same) in
      rw hit (ap (λ l. e ∷ l) (from_sink-same j same events))

  from_sink-other :
      (j : ℕ) → j ≢ i → (events : List A) → from_sink i (map (λ e. (j, e)) events) ≡ []
  from_sink-other j ne [] = refl
  from_sink-other j ne (e ∷ events) =
      let miss : (j == i) ≡ false = ground (arith, ne) in rw miss (from_sink-other j ne events)

  pub update_here : (sinks : Sinks A) (j : ℕ) (q : List A) → j ≡ i → update sinks j q i ≡ q
  update_here sinks j q e = ground (arith, e)

  update_there : (sinks : Sinks A) (j : ℕ) (q : List A) → j ≢ i → update sinks j q i ≡ sinks i
  update_there sinks j q ne = ground (arith, ne)

  -- Whatever the threads do, in whatever order: what was drained from a sink that is not replaced, and then
  -- what is still queued in it, is what was queued before, and then what was sent to it, each event once and in
  -- order. The other sinks have no part in it.
  pub each_event_once :
      (ops : List (SinkOp A)) (sinks : Sinks A)
      → All (Lives i) ops
      → from_sink i (run_sinks ops sinks).0 ++ (run_sinks ops sinks).1 i ≡ sinks i ++ sent_to i ops
  unfolding run_sinks new_sink drain send_event
  each_event_once [] sinks live = sym (append_nil (sinks i))
  each_event_once (creates j ∷ ops) sinks (ne, live) =
      each_event_once ops (update sinks j []) live
      ∙ ap (λ q. q ++ sent_to i ops) (update_there sinks j [] ne)
  each_event_once (sends listener e ∷ ops) sinks (_, live) =
      let rest = each_event_once ops (send_event listener e sinks) live in
      elim (ℕ_discrete listener.sink i) [
        | yes same ↦
            let hit : (listener.sink == i) ≡ true = ground arith in
            let grown =
              update_here sinks listener.sink (sinks listener.sink ++ e ∷ []) same
              ∙ ap (λ j. sinks j ++ e ∷ []) same in
            rw hit (
              rest
              ∙ ap (λ q. q ++ sent_to i ops) grown
              ∙ append_assoc (sinks i) (e ∷ []) (sent_to i ops))
        | no other ↦
            let miss : (listener.sink == i) ≡ false = ground arith in
            rw miss (rest ∙ ap (λ q. q ++ sent_to i ops) (update_there sinks listener.sink _ other))
      ]
  each_event_once (drains j ∷ ops) sinks (_, live) =
      let rest = each_event_once ops (update sinks j []) live in
      elim (ℕ_discrete j i) [
        | yes same ↦
            rw (from_sink-append _ _, from_sink-same j same (sinks j))
              (append_assoc (sinks j) _ _
                ∙ ap (λ l. sinks j ++ l)
                    (rest ∙ ap (λ q. q ++ sent_to i ops) (update_here sinks j [] same))
                ∙ ap (λ k. sinks k ++ sent_to i ops) same)
        | no other ↦
            rw (from_sink-append _ _, from_sink-other j other (sinks j))
              (rest ∙ ap (λ q. q ++ sent_to i ops) (update_there sinks j [] other))
      ]
