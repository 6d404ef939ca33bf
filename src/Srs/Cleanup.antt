-- ===== src/Srs/Cleanup.antt =====
-- srs/srs_service.go: the cleanup routine. One round ranges over the streams and drops those whose
-- client is gone or has not been updated for `stale_after`. (The round is one step.)
use vcs_srs_server.Srs.Radio.{RadioServer, Stream, cleaned, cleanup_client_state}
use vcs_srs_server.Base.{
  ℕ, ◌+◌, ◌≡◌, refl, Bool, true, ◌&&◌, Option, none, some, [], ◌∷◌, Uuid, Time, ltb, if◌then◌else◌,
  nat_eq, string_eq, Map, lookup, delete, IsUnique, has, map_laws,
}

unfoldable pub is_expired : Time → ℕ → Uuid → RadioServer → Bool
is_expired now stale_after i r = elim (lookup i r.state.clients) [
  | none ↦ true
  | some c ↦ ltb (c.last_update + stale_after) now
]

unfoldable pub drop_stream : Uuid → RadioServer → RadioServer
drop_stream i r = record (cleaned i r) { streams = delete i r.streams }

unfoldable pub cleanup_streams : Time → ℕ → Map Uuid Stream → RadioServer → RadioServer
cleanup_streams now stale_after [] r = r
cleanup_streams now stale_after ((i, _) ∷ rest) r =
    cleanup_streams now stale_after rest
      (if is_expired now stale_after i r then drop_stream i r else r)

unfoldable pub cleanup_round : Time → ℕ → RadioServer → RadioServer
cleanup_round now stale_after r = cleanup_streams now stale_after r.streams r

abbrev pub dropped : {V : Type 0} → Bool → Option V → Option V
dropped b o = if b then none else o

expired_at : Time → ℕ → Map Uuid Stream → RadioServer → Uuid → Bool
expired_at now stale_after streams r j = has j streams && is_expired now stale_after j r

cleanup_streams_lem :
    (now : Time) (stale_after : ℕ) (todo : Map Uuid Stream) (r : RadioServer) (j : Uuid)
    → IsUnique todo
    → let gone = expired_at now stale_after todo r j in
      let after = cleanup_streams now stale_after todo r in
      (lookup j after.streams ≡ dropped gone (lookup j r.streams))
      × (lookup j after.state.clients ≡ dropped gone (lookup j r.state.clients))
      × (lookup j after.state.radio_clients ≡ dropped gone (lookup j r.state.radio_clients))
unfolding cleanup_streams expired_at is_expired drop_stream cleanup_client_state lookup
cleanup_streams_lem now stale_after [] r j h = (refl, refl, refl)
cleanup_streams_lem now stale_after ((i, s) ∷ rest) r j h = grind (
  map_laws,
  cleanup_streams_lem now stale_after rest r j h.1,
  cleanup_streams_lem now stale_after rest (drop_stream i r) j h.1,
)

-- After a round each client that had a stream and was expired has lost the stream, its state and
-- its radios; every other entry of the three maps is as it was.
pub cleanup_round_lem :
    (now : Time) (stale_after : ℕ) (r : RadioServer) (j : Uuid)
    → IsUnique r.streams
    → let gone = has j r.streams && is_expired now stale_after j r in
      let after = cleanup_round now stale_after r in
      (lookup j after.streams ≡ dropped gone (lookup j r.streams))
      × (lookup j after.state.clients ≡ dropped gone (lookup j r.state.clients))
      × (lookup j after.state.radio_clients ≡ dropped gone (lookup j r.state.radio_clients))
unfolding cleanup_round expired_at
cleanup_round_lem now stale_after r j h = cleanup_streams_lem now stale_after r.streams r j h
