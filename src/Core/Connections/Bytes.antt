-- ===== src/Core/Connections/Bytes.antt =====
-- core/connectionManager.ts: the bytes of the connections against the counters of core/stats.ts.
use sepigs.Base.{
  ℕ, ◌+◌, String, ◌≡◌, refl, inl, inr, Bool, true, false, none, some, List, [], ◌∷◌, arith, nat_eq,
  string_eq, Option-cases,
}
use sepigs.Base.Table.{Table, get, put}
use sepigs.Core.Limiter.{try_acquire_connection}
use sepigs.Core.Stats
use sepigs.Core.Connections.{
  Manager, Options, Connection, init, fresh_connection, closed_with, touched, update, finalize,
  accept, set_destination, mark_established, attach_remote_socket, touch, add_upload_bytes,
  add_download_bytes, close, close_connection, close_each, close_all,
}
use sepigs.Core.Connections.Events.{
  Event, accepts, sets_destination, marks_established, touches, attaches, uploads, downloads,
  closes, closes_connection, closes_all, socket_closed, timer_fired, socket_close, timer_fire, step,
  run,
}
use sepigs.Core.Connections.Invariant.{Inv, init-Inv, step-Inv}

-- The sum of a measure over all objects.
pub sum_of : (Connection → ℕ) → Table ℕ Connection → ℕ
sum_of f [] = 0
sum_of f ((id, c) ∷ t) = f c + sum_of f t

sum_of-put :
    (f : Connection → ℕ) (id : ℕ) (c : Connection) (t : Table ℕ Connection)
    → sum_of f (put id c t) + (elim (get id t) [ none ↦ 0 | some old ↦ f old ]) ≡ sum_of f t + f c
unfolding sum_of put get
sum_of-put f id c [] = omega arith
sum_of-put f id c ((j, d) ∷ t) = ground (arith, sum_of-put f id c t)

pub record Balanced (m : Manager) : Type 0 where
  pub upload : sum_of (λ c. c.bytes_upload) m.objects ≡ m.stats.bytes_client_to_remote
  pub download : sum_of (λ c. c.bytes_download) m.objects ≡ m.stats.bytes_remote_to_client

accept-Balanced :
    (o : Options) (now : ℕ) (m : Manager) → Inv m → Balanced m → Balanced (accept o now m).0
unfolding accept try_acquire_connection Stats.start_connection Stats.reject_connection
accept-Balanced o now m v b = ground (
  arith,
  v.registry.fresh m.next_id,
  sum_of-put (λ c. c.bytes_upload) m.next_id (fresh_connection m.next_id o now) m.objects,
  sum_of-put (λ c. c.bytes_download) m.next_id (fresh_connection m.next_id o now) m.objects,
)

abbrev KeepsBytes : (Connection → Connection) → Type 0
KeepsBytes f =
    (c : Connection)
    → ((f c).bytes_upload ≡ c.bytes_upload) × ((f c).bytes_download ≡ c.bytes_download)

update-Balanced :
    (id : ℕ) (f : Connection → Connection) (m : Manager)
    → KeepsBytes f
    → Balanced m
    → Balanced (update id f m)
update-Balanced id f m k b = elim (Option-cases (get id m.objects)) [
  | inl e ↦ rw (e, update) b
  | inr (c, e) ↦
      rw (e, update)
        (ground (
          arith,
          k c,
          e,
          sum_of-put (λ c. c.bytes_upload) id (f c) m.objects,
          sum_of-put (λ c. c.bytes_download) id (f c) m.objects,
        ))
]

upload-Balanced : (id bytes : ℕ) (m : Manager) → Balanced m → Balanced (add_upload_bytes id bytes m)
unfolding add_upload_bytes Stats.add_client_to_remote_bytes
upload-Balanced id bytes m b = elim (Option-cases (get id m.objects)) [
  | inl e ↦ rw (e, add_upload_bytes) b
  | inr (c, e) ↦
      let c' = record c { bytes_upload = c.bytes_upload + bytes } in
      rw (e, add_upload_bytes)
        (ground (
          arith,
          e,
          sum_of-put (λ c. c.bytes_upload) id (touched c' c'.state) m.objects,
          sum_of-put (λ c. c.bytes_download) id (touched c' c'.state) m.objects,
        ))
]

download-Balanced :
    (id bytes : ℕ) (m : Manager) → Balanced m → Balanced (add_download_bytes id bytes m)
unfolding add_download_bytes Stats.add_remote_to_client_bytes
download-Balanced id bytes m b = elim (Option-cases (get id m.objects)) [
  | inl e ↦ rw (e, add_download_bytes) b
  | inr (c, e) ↦
      let c' = record c { bytes_download = c.bytes_download + bytes } in
      rw (e, add_download_bytes)
        (ground (
          arith,
          e,
          sum_of-put (λ c. c.bytes_upload) id (touched c' c'.state) m.objects,
          sum_of-put (λ c. c.bytes_download) id (touched c' c'.state) m.objects,
        ))
]

close-Balanced :
    (id : ℕ) (failed : Bool) (reason : String) (now : ℕ) (m : Manager)
    → Balanced m
    → Balanced (close id failed reason now m)
unfolding close finalize Stats.close_connection
close-Balanced id failed reason now m b = elim (Option-cases (get id m.objects)) [
  | inl e ↦ rw (e, close) b
  | inr (c, e) ↦
      rw (e, close)
        (ground (
          arith,
          e,
          sum_of-put (λ c. c.bytes_upload) id (closed_with reason c) m.objects,
          sum_of-put (λ c. c.bytes_download) id (closed_with reason c) m.objects,
        ))
]

close_each-Balanced :
    (ids : List (ℕ × ℕ)) (reason : String) (now : ℕ) (m : Manager)
    → Balanced m
    → Balanced (close_each ids reason now m)
unfolding close_each
close_each-Balanced [] reason now m b = b
close_each-Balanced ((id, object) ∷ ids) reason now m b =
    close_each-Balanced ids reason now _ (close-Balanced object false reason now m b)

close_connection-Balanced :
    (id : ℕ) (reason : String) (now : ℕ) (m : Manager)
    → Balanced m
    → Balanced (close_connection id reason now m).0
unfolding close_connection
close_connection-Balanced id reason now m b = elim (Option-cases (get id m.connections)) [
  | inl e ↦ rw (e, close_connection) b
  | inr (object, e) ↦ rw (e, close_connection) (close-Balanced object true reason now m b)
]

step-Balanced : (m : Manager) (e : ℕ × Event) → Inv m → Balanced m → Balanced (step m e)
unfolding step set_destination mark_established attach_remote_socket touch close_all
    close_connection socket_close timer_fire
step-Balanced m (now, accepts o) v b = accept-Balanced o now m v b
step-Balanced m (now, sets_destination id d) v b = update-Balanced id _ m (λ c. (refl, refl)) b
step-Balanced m (now, marks_established id) v b = update-Balanced id _ m (λ c. ground arith) b
step-Balanced m (now, touches id) v b = update-Balanced id _ m (λ c. ground arith) b
step-Balanced m (now, attaches id socket) v b = update-Balanced id _ m (λ c. (refl, refl)) b
step-Balanced m (now, uploads id bytes) v b = upload-Balanced id bytes m b
step-Balanced m (now, downloads id bytes) v b = download-Balanced id bytes m b
step-Balanced m (now, closes id failed reason) v b = close-Balanced id failed reason now m b
step-Balanced m (now, closes_connection id reason) v b = close_connection-Balanced id reason now m b
step-Balanced m (now, closes_all reason) v b = close_each-Balanced m.connections reason now m b
step-Balanced m (now, socket_closed id socket) v b = ground (
  arith,
  close-Balanced id false "client socket closed" now m b,
  close-Balanced id false "remote socket closed" now m b,
)
step-Balanced m (now, timer_fired id) v b =
    ground (arith, close-Balanced id true "handshake timeout" now m b)

run-Balanced : (m : Manager) (es : List (ℕ × Event)) → Inv m → Balanced m → Balanced (run m es)
unfolding run
run-Balanced m [] v b = b
run-Balanced m (e ∷ es) v b = run-Balanced (step m e) es (step-Inv m e v) (step-Balanced m e v b)

-- After any calls on a new manager, the bytes counted in each direction are the sums of the bytes
-- counted by all connections ever accepted, the closed ones included.
pub run-init-Balanced : (most : ℕ) (es : List (ℕ × Event)) → Balanced (run (init most) es)
unfolding init sum_of
run-init-Balanced most es =
    run-Balanced (init most) es (init-Inv most) (record { upload = refl; download = refl })
