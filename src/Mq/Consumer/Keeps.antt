-- ===== src/Mq/Consumer/Keeps.antt =====
-- What the set up relies on of a broker, and how a call with its error text runs.
use run_all_resource.Prelude.{ℕ, String, ◌≡◌, ◌≢◌, refl, Bool, Option, some, List}
use run_all_resource.Go.{Texts, Result, ok, err, M, ◌>>=◌}
use run_all_resource.Mq.Consumer.{with_text}
use run_all_resource.Mq.Broker.{Exchange, Queue, Binding, Subscription, Broker, ServerState}

-- The queues of a broker with their arguments, and its bindings. A declaration of a queue keeps the name
-- that is asked for; no call of the set up removes a binding or changes the arguments of a queue.
pub record KeepsTopology {W : Type 0} (broker : Broker W)
    (args_of : String → W → Option (List (String × String)))
    (IsBound : String → String → String → W → Type 0) : Type 0 where
  pub declares :
      (q : Queue) (w : W) (name : String)
      → (broker.queue_declare q w).0 ≡ ok name
      → args_of name (broker.queue_declare q w).1 ≡ some q.arguments
  pub names :
      (q : Queue) (w : W) (name : String)
      → (broker.queue_declare q w).0 ≡ ok name
      → q.name ≢ ""
      → name ≡ q.name
  pub binds :
      (b : Binding) (w : W)
      → (broker.queue_bind b w).0 ≡ ok tt
      → IsBound b.exchange b.routing_key b.queue (broker.queue_bind b w).1
  pub exchange_keeps :
      (x : Exchange) (w : W) (e k q : String)
      → IsBound e k q w
      → IsBound e k q (broker.exchange_declare x w).1
  pub queue_keeps :
      (x : Queue) (w : W) (e k q : String)
      → IsBound e k q w
      → IsBound e k q (broker.queue_declare x w).1
  pub bind_keeps :
      (x : Binding) (w : W) (e k q : String)
      → IsBound e k q w
      → IsBound e k q (broker.queue_bind x w).1
  pub qos_keeps :
      (n m : ℕ) (g : Bool) (w : W) (e k q : String)
      → IsBound e k q w
      → IsBound e k q (broker.qos n m g w).1
  pub consume_keeps :
      (x : Subscription) (w : W) (e k q : String)
      → IsBound e k q w
      → IsBound e k q (broker.consume x w).1
  pub bind_keeps_args :
      (x : Binding) (w : W) (q : String) → args_of q (broker.queue_bind x w).1 ≡ args_of q w
  pub qos_keeps_args :
      (n m : ℕ) (g : Bool) (w : W) (q : String) → args_of q (broker.qos n m g w).1 ≡ args_of q w
  pub consume_keeps_args :
      (x : Subscription) (w : W) (q : String) → args_of q (broker.consume x w).1 ≡ args_of q w

module _ {W : Type 0} (broker : Broker W) (texts : Texts) where
  pub with_text-ok :
      {A : Type 0} (message : String) (m : M W A) (a : A) (s : W × ServerState)
      → (with_text broker texts message m s).0 ≡ ok a
      → ((m s.0).0 ≡ ok a) × ((with_text broker texts message m s).1 ≡ ((m s.0).1, s.1))
  with_text-ok message m a (w, st) h = let (r, w') = m w in told r w' h
    where
      told :
          (r : Result _) (w' : W)
          → (with_text broker texts message (λ (x : W). (r, w')) (w, st)).0 ≡ ok a
          → (r ≡ ok a)
            × ((with_text broker texts message (λ (x : W). (r, w')) (w, st)).1 ≡ (w', st))
      told (ok b) w' k = (k, refl)
      told (err e) w' k = cc

  abbrev pub Step : Type 0 → Type 0
  Step A = M (W × ServerState) A

  -- a call that succeeded goes on from the state that it left
  pub text-runs :
      {A B : Type 0} (message : String) (m : M W A) (f : A → Step B) (b : B) (w : W)
      (st : ServerState)
      → ((with_text broker texts message m >>= f) (w, st)).0 ≡ ok b
      → (a : A) × ((m w).0 ≡ ok a)
        × ((with_text broker texts message m >>= f) (w, st) ≡ f a ((m w).1, st))
  text-runs {A} {B} message m f b w st h = let (r, w') = m w in went r w' h
    where
      went :
          (r : Result A) (w' : W)
          → ((with_text broker texts message (λ (x : W). (r, w')) >>= f) (w, st)).0 ≡ ok b
          → (a : A) × (r ≡ ok a)
            × ((with_text broker texts message (λ (x : W). (r, w')) >>= f) (w, st) ≡ f a (w', st))
      went (ok a) w' k = (a, refl, refl)
      went (err e) w' k = cc
