-- ===== src/Registry/Service/Channel.antt =====
-- The handler of a node's service announcements against the plain reading of a sequence of them:
-- the last announcement of a port decides whether it is registered.
use car_integrated_service_m.Prelude.{
  ℤ, eqb_ℤ, Bytes, text_eq, List, [], ◌∷◌, none, some, Bool, true, false, ◌&&◌, ◌≡◌, ◌↔◌, refl, ap,
  if◌then◌else◌, Outcome, ok, err, panic, arith, last_or, length, suc,
}
use car_integrated_service_m.Registry.Node.{
  NodeRegistry, Header, StreamEnd, ValidationError, validate_node_id,
}
use car_integrated_service_m.Registry.Service.{
  ServiceConfigSnapshot, ServiceAnnouncement, ServiceError, registers, announced, serve,
  open_channel, stream_result,
}
use car_integrated_service_m.Registry.Service.Snapshots.{has, same, IsValid}
use car_integrated_service_m.Registry.Service.Registrations.{register_service_lem}
use car_integrated_service_m.Registry.Service.Removals.{unregister_service_lem}

-- Whether a port is registered after some announcements of its node, given whether it was before.
abbrev pub last_word : List ServiceAnnouncement → Bytes → ℤ → Bool → Bool
last_word [] b p was = was
last_word (a ∷ as') b p was =
    last_word as' b p (if text_eq a.bundle_id b && eqb_ℤ p a.local_port then registers a else was)

module _ (n : Bytes) where
  -- One announcement, of either kind.
  announced_lem :
      (s : ServiceConfigSnapshot) (a : ServiceAnnouncement)
      → IsValid s
      → (s' : ServiceConfigSnapshot) × (announced {E = ServiceError} s n a ≡ ok s')
        × IsValid s'
        × ((m d : Bytes) (q : ℤ)
            → has s' m d q
              ≡ (if same n a.bundle_id a.local_port m d q then registers a else has s m d q))
  announced_lem s a v = by_kind (registers a) refl
    where
      by_kind :
          (t : Bool)
          → registers a ≡ t
          → (s' : ServiceConfigSnapshot) × (announced {E = ServiceError} s n a ≡ ok s')
            × IsValid s'
            × ((m d : Bytes) (q : ℤ)
                → has s' m d q
                  ≡ (if same n a.bundle_id a.local_port m d q then registers a else has s m d q))
      by_kind true t =
          let (s', e, v', h) =
            register_service_lem {E = ServiceError} s n a.bundle_id a.local_port v in
          (s', unfold announced in ground arith, v', λ m d q. ground (arith, h m d q))
      by_kind false t =
          let (s', e, v', h) =
            unregister_service_lem {E = ServiceError} s n a.bundle_id a.local_port v in
          (s', unfold announced in ground arith, v', λ m d q. ground (arith, h m d q))

  serve-cons :
      (s s' : ServiceConfigSnapshot) (a : ServiceAnnouncement) (as' : List ServiceAnnouncement)
      (end : StreamEnd)
      → announced {E = ServiceError} s n a ≡ ok s'
      → serve s n (a ∷ as') end
        ≡ record (serve s' n as' end) { updates = s' ∷ (serve s' n as' end).updates }
  unfolding serve
  serve-cons s s' a as' end e = ground arith

  -- Served from a valid snapshot, a stream of announcements ends with the stream's own result and a
  -- valid snapshot. One snapshot is sent for each announcement, the last of them the final one. A
  -- port of the announcing node is registered at the end exactly if its last announcement registered
  -- it, or there was none and it was registered before; ports of other nodes are as before.
  pub serve_lem :
      (s : ServiceConfigSnapshot) (as' : List ServiceAnnouncement) (end : StreamEnd)
      → IsValid s
      → ((serve s n as' end).result ≡ stream_result end)
        × IsValid (serve s n as' end).services
        × (length (serve s n as' end).updates ≡ length as')
        × (last_or s (serve s n as' end).updates ≡ (serve s n as' end).services)
        × ((m d : Bytes) (q : ℤ)
            → has (serve s n as' end).services m d q
              ≡ (if text_eq n m then last_word as' d q (has s m d q) else has s m d q))
  serve_lem s [] end v = unfold serve in (refl, v, refl, refl, λ m d q. ground arith)
  serve_lem s (a ∷ as') end v =
      let (s', e, v', h) = announced_lem s a v in
      let (done, valid, sent, last, ports) = serve_lem s' as' end v' in
      rw (serve-cons s s' a as' end e)
        (done, valid, ap suc sent, last, λ m d q. ground (arith, ports m d q, h m d q))

-- From a valid snapshot the handler panics exactly if the client sends metadata without a node ID.
pub open_channel_panics :
    (nodes : NodeRegistry) (s : ServiceConfigSnapshot) (header : Header)
    (as' : List ServiceAnnouncement) (end : StreamEnd)
    → IsValid s
    → ((open_channel nodes s header as' end).result ≡ panic) ↔ (header ≡ some [])
open_channel_panics nodes s none as' end v = unfold open_channel in ground arith
open_channel_panics nodes s (some []) as' end v = unfold open_channel in (λ _. refl, λ _. refl)
open_channel_panics nodes s (some (id ∷ ids)) as' end v =
    by_validation (validate_node_id nodes id) refl
  where
    by_validation :
        (o : Outcome ValidationError ℤ)
        → validate_node_id nodes id ≡ o
        → ((open_channel nodes s (some (id ∷ ids)) as' end).result ≡ panic)
          ↔ (◌≡◌ {A = Header} (some (id ∷ ids)) (some []))
    by_validation (ok z) e =
        (λ p. unfold open_channel in ground (arith, (serve_lem id s as' end v).0), λ p. cc)
    by_validation (err f) e = (λ p. unfold open_channel in ground arith, λ p. cc)
    by_validation panic e = absurd (unfold validate_node_id in ground arith)
