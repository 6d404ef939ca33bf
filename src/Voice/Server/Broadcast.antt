-- ===== src/Voice/Server/Broadcast.antt =====
-- Who receives a voice packet.
use vcs_srs_server.Float32.{Float32}
use vcs_srs_server.State.Server.{
  ClientState, ServerState, does_client_exist, get_all_clients, is_listening_on_frequency,
}
use vcs_srs_server.State.Settings.{SettingsState, is_frequency_global, is_frequency_test}
use vcs_srs_server.Voice.Protocol.{UuidBytes, VcsPacket, serialize_packet}
use vcs_srs_server.Voice.Server.{
  Client, Server, broadcast_voice, frequency_as_float32, get_listening_clients, listeners, play,
  send,
}
use vcs_srs_server.Base.{
  ℕ, String, ◌≡◌, refl, ◌≢◌, ◌↔◌, ◌⊎◌, inl, inr, Bool, true, false, none, some, List, [], ◌∷◌, map,
  arith, Uuid, nat_eq, string_eq, Option-cases, Any, Map, lookup, IsUnique, HasEntry-of_lookup,
  lookup_of_HasEntry,
}

-- A client of the control server, other than the sender, that hears the sender on the frequency and
-- is registered here.
abbrev pub IsListener :
    Uuid → Float32 → Bool → ServerState → Map Uuid Client → Uuid → Client → Type 0
IsListener sender f global s registered i c =
    (i ≢ sender)
    × (is_listening_on_frequency i sender f global s ≡ true)
    × (lookup i registered ≡ some c)

module _ (sender : Uuid) (f : Float32) (global : Bool) (s : ServerState)
    (registered : Map Uuid Client) where
  head_or_rest :
      (i : Uuid) (x : ClientState) (cs : List (Uuid × ClientState)) (c : Client)
      → Any (λ x. x ≡ c) (listeners ((i, x) ∷ cs) sender f global s registered)
      → IsListener sender f global s registered i c
        ⊎ Any (λ x. x ≡ c) (listeners cs sender f global s registered)
  unfolding listeners
  head_or_rest i x cs c h = ground (arith, Option-cases (lookup i registered))

  IsListener-found :
      (cs : List (Uuid × ClientState)) (c : Client)
      → Any (λ x. x ≡ c) (listeners cs sender f global s registered)
      → (i : Uuid) × (x : ClientState) × Any (λ p. p ≡ (i, x)) cs
        × IsListener sender f global s registered i c
  unfolding listeners
  IsListener-found [] c h = absurd h
  IsListener-found ((i, x) ∷ cs) c h = elim (head_or_rest i x cs c h) [
    | inl l ↦ (i, x, inl refl, l)
    | inr r ↦ let (j, y, at, l) = IsListener-found cs c r in (j, y, inr at, l)
  ]

  IsListener-kept :
      (cs : List (Uuid × ClientState)) (c : Client) (i : Uuid) (x : ClientState)
      → Any (λ p. p ≡ (i, x)) cs
      → IsListener sender f global s registered i c
      → Any (λ x. x ≡ c) (listeners cs sender f global s registered)
  unfolding listeners
  IsListener-kept [] c i x h l = absurd h
  IsListener-kept ((j, y) ∷ cs) c i x (inl e) l = ground arith
  IsListener-kept ((j, y) ∷ cs) c i x (inr h) l =
      ground (arith, IsListener-kept cs c i x h l, Option-cases (lookup j registered))

Any-map_send :
    (cs : List Client) (a : String) (bytes wire : List ℕ)
    → Any (λ e. e ≡ send a wire) (map (λ (c : Client). send c.addr bytes) cs)
    → (c : Client) × Any (λ x. x ≡ c) cs × (c.addr ≡ a) × (wire ≡ bytes)
Any-map_send [] a bytes wire h = absurd h
Any-map_send (c ∷ cs) a bytes wire (inl e) = (c, inl refl, ground arith, ground arith)
Any-map_send (c ∷ cs) a bytes wire (inr h) =
    let (d, at, p, q) = Any-map_send cs a bytes wire h in (d, inr at, p, q)

Any-send_map :
    (cs : List Client) (c : Client) (bytes : List ℕ)
    → Any (λ x. x ≡ c) cs
    → Any (λ e. e ≡ send c.addr bytes) (map (λ (d : Client). send d.addr bytes) cs)
Any-send_map [] c bytes h = h
Any-send_map (d ∷ cs) c bytes (inl e) = inl (ground arith)
Any-send_map (d ∷ cs) c bytes (inr h) = inr (Any-send_map cs c bytes h)

module _ (u : UuidBytes) (p : VcsPacket) (sender : Uuid) (s : ServerState)
    (settings : SettingsState) (v : Server) where
  -- On a frequency that is not a test frequency a voice packet goes, unchanged, to an address
  -- exactly where the address is that of a registered client, other than the sender, that the
  -- control server knows and that hears the sender on the packet's frequency.
  pub broadcast_reaches :
      (a : String) (wire : List ℕ)
      → IsUnique s.clients
      → is_frequency_test (frequency_as_float32 p) settings ≡ false
      → Any (λ e. e ≡ send a wire) (broadcast_voice u p sender s settings v) ↔ (
          (wire ≡ serialize_packet u p)
          × ((i : Uuid) × (c : Client) × (c.addr ≡ a)
              × (does_client_exist i s ≡ true)
              × IsListener sender
                  (frequency_as_float32 p)
                  (is_frequency_global (frequency_as_float32 p) settings)
                  s
                  v.clients
                  i
                  c))
  unfolding broadcast_voice get_listening_clients get_all_clients does_client_exist
  broadcast_reaches a wire unique live = rw live (
    λ h.
        let (c, at, addr, same) = Any-map_send _ a (serialize_packet u p) wire h in
        let (i, x, entry, l) = IsListener-found sender _ _ s v.clients s.clients c at in
        (same, (i, c, addr, ground (arith, lookup_of_HasEntry i x s.clients unique entry), l)),
    λ (same, (i, c, addr, known, l)).
        rw (same, ← addr)
          (Any-send_map _ c (serialize_packet u p) (elim (Option-cases (lookup i s.clients)) [
            | inl e ↦ absurd (ground arith)
            | inr (x, e) ↦
                IsListener-kept sender _ _ s v.clients s.clients c i x
                  (HasEntry-of_lookup i x s.clients e) l
          ])),
  )

  -- On a test frequency a voice packet goes to nobody: the payload of a registered sender is played
  -- here, once, and that of another is dropped.
  pub broadcast_test_frequency :
      is_frequency_test (frequency_as_float32 p) settings ≡ true
      → broadcast_voice u p sender s settings v
        ≡ (elim (lookup p.sender_id v.clients) [ none ↦ [] | some _ ↦ play p.payload ∷ [] ])
  unfolding broadcast_voice get_listening_clients
  broadcast_test_frequency test = ground (arith, Option-cases (lookup p.sender_id v.clients))
