-- ===== src/Tests/Overtakers.antt =====
-- A host whose channels have no room for a piece of text until something was accepted.
use llm_worker.Base.{◌≡◌, refl, [], ◌∷◌, none, codes}
use llm_worker.Engine.Types.{Event, token, done, failed, limit}
use llm_worker.Engine.Host.{Host, ChannelLaws, Sent, sent, full}
use llm_worker.Engine.Ordered.{events_for}
use llm_worker.Engine.Overtaking.{deliver-overtakes}
use llm_worker.Engine.Pool.{State}
use llm_worker.Engine.Serve.{deliver, retain}
use llm_worker.Tests.Toy.{
  Accepted, toy, accept_sent, received_on, accepted-same, accepted-other, refused-same,
}

abbrev room_for : Accepted → Event → Sent
room_for [] (token text) = full
room_for [] (done stop prompt_tokens tokens ms) = sent
room_for [] (failed error) = sent
room_for (first ∷ rest) e = sent

abbrev slow_reader : Host
slow_reader = record toy { try_send = λ w c e. (room_for w e, accept_sent (room_for w e) w c e) }

abbrev slow_laws : ChannelLaws slow_reader
slow_laws = record {
  received = received_on;
  received_sent = λ w c e p. accepted-same (room_for w e) w c e p;
  received_other = λ w c d e ne. accepted-other (room_for w e) w c d e ne;
  received_refused = λ w c e p. refused-same (room_for w e) w c e p;
  received_flag = λ w f c. refl;
  received_time = λ w c. refl;
  received_instant = λ w c. refl;
  received_sample = λ s w row c. refl;
  received_decode = λ w b c. refl;
  received_clear = λ w s c. refl;
}

abbrev lo : Event
lo = token (codes "lo")

abbrev over : Event
over = done limit 2 2 1

-- A piece for another caller stands between the two events of channel 3.
abbrev three_owed : State ⦃h = slow_reader⦄
three_owed = record {
  slots = none ∷ [];
  outbox = (3, lo) ∷ (4, lo) ∷ (3, over) ∷ [];
  batch = 0;
  step_us = 0;
  world = [];
  inflight = 0;
  decoding = 0;
}

deliver-overtakes_example :
    let once = deliver ⦃h = slow_reader⦄ three_owed in
    let twice = deliver ⦃h = slow_reader⦄ once in
    (events_for 3 once.outbox ≡ lo ∷ [])
    × (received_on once.world 3 ≡ over ∷ [])
    × (events_for 3 twice.outbox ≡ [])
    × (received_on twice.world 3 ≡ over ∷ lo ∷ [])
unfolding retain deliver
deliver-overtakes_example =
    deliver-overtakes ⦃h = slow_reader⦄ slow_laws 3 three_owed [] ((4, lo) ∷ []) [] lo over refl
      refl refl refl refl refl refl
