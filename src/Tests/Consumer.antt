-- ===== src/Tests/Consumer.antt =====
-- The loop of the consumer at a concrete input.
use run_all_resource.Prelude.{ℕ, ◌+◌, ◌≡◌, none, List, [], ◌∷◌, length}
use run_all_resource.Go.{ok, M}
use run_all_resource.Mq.Delivery.{Delivery}
use run_all_resource.Mq.Delivery.Settled.{Settlement}
use run_all_resource.Mq.Broker.{Broker, context_done, delivery}
use run_all_resource.Mq.Consumer.Serial.{settle_each, loop, serve-deliveries}
use run_all_resource.Tests.Sample.{sample_texts}
use run_all_resource.Tests.Queue.{failing, says_ok, delivery_of}

abbrev done : M (ℕ × List Settlement) (Unit {0})
done s = (ok tt, s)

abbrev broker : Broker (ℕ × List Settlement)
broker = record {
  open_channel = done;
  exchange_declare = λ e. done;
  queue_declare = λ q s. (ok q.name, s);
  queue_bind = λ b. done;
  qos = λ count size global. done;
  consume = λ c. done;
  cancel = λ tag no_wait. done;
  close = done;
}

abbrev two : List Delivery
two = delivery_of none ∷ delivery_of none ∷ []

serve-deliveries_example :
    let settled = settle_each sample_texts failing 3 two (0, []) in
    (loop sample_texts failing broker says_ok 3 "resource-consumer"
        (delivery (delivery_of none) ∷ delivery (delivery_of none) ∷ context_done ∷ [])
        (0, [])
      ≡ loop sample_texts failing broker says_ok 3 "resource-consumer" (context_done ∷ []) settled)
    × (length settled.1 ≡ 0 + 2)
serve-deliveries_example =
    serve-deliveries sample_texts failing broker says_ok 3 "resource-consumer" two
      (context_done ∷ []) (0, [])
