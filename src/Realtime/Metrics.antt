-- ===== src/Realtime/Metrics.antt =====
-- `RealtimeHub.metrics` of realtime.py.
use relaytv.Prelude.{nat_eq, codes_eq, ℕ, suc, ◌+◌, Text, [], ◌∷◌, if◌then◌else◌}
use relaytv.Prelude.Dict.{Dict, get, put}
use relaytv.Realtime.Hub.{Hub, Subscription, or_zero}

pub record Metrics : Type 0 where
  pub subscribers : ℕ
  pub subscribers_by_channel : Dict Text ℕ
  pub subscribers_by_transport : Dict Text ℕ
  pub sequences : Dict Text ℕ
  pub offered : ℕ
  pub dropped : ℕ
  pub coalesced : ℕ

abbrev pub count_one : Dict Text ℕ → Text → Dict Text ℕ
count_one counts key = put counts key (suc (or_zero (get counts key)))

abbrev pub count_subscription : Subscription → Metrics → Metrics
count_subscription s m = record m {
  subscribers = suc m.subscribers;
  subscribers_by_channel = count_one m.subscribers_by_channel s.channel;
  subscribers_by_transport = count_one m.subscribers_by_transport s.transport;
  offered = m.offered + s.inbox.offered;
  dropped = m.dropped + s.inbox.dropped;
  coalesced = m.coalesced + s.inbox.coalesced;
}

-- Over the subscriptions that are registered, in their order.
unfoldable pub count_each : Dict ℕ Subscription → Metrics → Metrics
unfolding get put
count_each [] m = m
count_each ((id, s) ∷ subscriptions) m =
    count_each subscriptions (if s.registered then count_subscription s m else m)

unfoldable pub metrics : Hub → Metrics
unfolding count_each
metrics hub = count_each hub.subscriptions (record {
  subscribers = 0;
  subscribers_by_channel = [];
  subscribers_by_transport = [];
  sequences = hub.sequences;
  offered = 0;
  dropped = 0;
  coalesced = 0;
})
