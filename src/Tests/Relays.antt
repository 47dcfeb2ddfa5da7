-- ===== src/Tests/Relays.antt =====
-- The broker at a concrete run.
use car_integrated_service_m.Prelude.{ℕ, [], ◌∷◌, All, ◌≡◌, refl, arith}
use car_integrated_service_m.Broker.{
  Broker, new_broker, read, accept, write, relay, receive, reading, accepting, writing, relaying,
  receiving, Reach, started, followed,
}
use car_integrated_service_m.Broker.Order.{IsServed, Reach-listeners}
use car_integrated_service_m.Broker.Pace.{IsSuffix, Paced, paced_start, paced_step, Paced-listeners}

abbrev run : Broker ℕ
run = receive 0 (relay 7 [] (write 7 (accept 0 (read new_broker))))

run_test : run.listeners ≡ record { buffer = []; received = 7 ∷ [] } ∷ []
unfolding receive relay write accept read new_broker
run_test = refl

Reach-run : Reach run
unfolding write accept read new_broker
Reach-run =
    followed
      (followed
        (followed (followed (followed started (reading (omega arith))) (accepting 0 refl))
          (writing 7 (omega arith)))
        (relaying 7 [] refl))
      (receiving 0)

Reach-listeners_test : All (IsServed run.relayed) run.listeners
Reach-listeners_test = Reach-listeners run Reach-run

Paced-run : Paced run
unfolding relay write accept read new_broker
Paced-run =
    paced_step
      (paced_step
        (paced_step
          (paced_step (paced_step paced_start tt (reading (omega arith))) tt (accepting 0 refl))
          (omega arith, tt) (writing 7 (omega arith)))
        (omega arith, tt) (relaying 7 [] refl))
      (omega arith, tt) (receiving 0)

Paced-listeners_example : All (IsSuffix run.relayed) run.listeners
Paced-listeners_example = Paced-listeners run Paced-run
