-- ===== src/Udp/Replies.antt =====
-- Where the datagrams of a `udp_stream` go, and what it says of it.
use vee.Common.{
  ℕ, ◌≡◌, ◌∙◌, refl, sym, ap, subst, inl, inr, Option, Option-cases, none, some, List, [], ◌∷◌,
  arith,
}
use vee.Endpoint.{Endpoint, null_endpoint, copy}
use vee.CString.{c_str}
use vee.Tcp.{Buffer}
use vee.Tcp.Store.{Memory, load}
use vee.Udp.{
  Datagrams, UdpStream, Op, map_to, map_to_endpoint, read, read_named, write, write_named,
  map_remote_endpoint, read_from, write_to, read_some, write_some, get_remote_endpoint, apply,
  apply_all,
}
use mathlib.Core.Option.{some_inj}

module _ {A S : Type 0} (net : Datagrams A S) where
  -- Where a write sends its datagram, whatever endpoint the call names: what it returns is what the
  -- socket answers to that datagram, the socket is the one behind it, and nothing else changes.
  abbrev pub sent_to : A × ℕ → Memory → Buffer → ℕ → UdpStream A S → Option ℕ × UdpStream A S
  sent_to destination m buffer n t =
      let answer : Option ℕ × S = net.send_to (load m buffer.ptr n) destination t.socket in
      (answer.0, record t { socket = answer.1 })

  pub record SendsTo (destination : A × ℕ) (t : UdpStream A S) : Type 0 where
    pub by_name :
        (m : Memory) (buffer : Buffer) (n : ℕ) (e : Endpoint)
        → write_to net m buffer n e t ≡ sent_to destination m buffer n t
    pub plain :
        (m : Memory) (buffer : Buffer) (n : ℕ)
        → write_some net m buffer n t ≡ sent_to destination m buffer n t

  remote-SendsTo : (t : UdpStream A S) → SendsTo t.remote_endpoint t
  unfolding write_to write_some
  remote-SendsTo t = record { by_name = λ m buffer n e. refl; plain = λ m buffer n. refl }

  read_from-remote :
      (m : Memory) (buffer : Buffer) (n : ℕ) (e : Endpoint) (t : UdpStream A S) (bytes : List ℕ)
      (sender : A × ℕ)
      → (net.receive_from n t.socket).0 ≡ some (bytes, sender)
      → ((read_from net m buffer n e t).3.remote_endpoint ≡ sender)
        × ((read_from net m buffer n e t).2 ≡ e)
  unfolding read_from
  read_from-remote m buffer n e t bytes sender h = (rw (h, read_from) refl, rw (h, read_from) refl)

  -- Once a datagram is read by `read_from` or by `read_some`, each `write_to` and each `write_some`
  -- sends to its sender, whatever endpoint was mapped before and whatever endpoint the write names:
  -- the bytes at the buffer go to the socket with that destination, its answer is returned, and the
  -- stream keeps the socket behind it. The endpoint that `read_from` was given to take the sender
  -- is as it was.
  pub read_from-SendsTo :
      (m : Memory) (buffer : Buffer) (n : ℕ) (e : Endpoint) (t : UdpStream A S) (bytes : List ℕ)
      (sender : A × ℕ)
      → (net.receive_from n t.socket).0 ≡ some (bytes, sender)
      → SendsTo sender (read_from net m buffer n e t).3
        × SendsTo sender (read_some net m buffer n t).2
        × ((read_from net m buffer n e t).2 ≡ e)
  unfolding read_some
  read_from-SendsTo m buffer n e t bytes sender h = (
    subst (λ d. SendsTo d (read_from net m buffer n e t).3)
        (read_from-remote m buffer n e t bytes sender h).0
        (remote-SendsTo (read_from net m buffer n e t).3),
    subst (λ d. SendsTo d (read_from net m buffer n null_endpoint t).3)
        (read_from-remote m buffer n null_endpoint t bytes sender h).0
        (remote-SendsTo (read_from net m buffer n null_endpoint t).3),
    (read_from-remote m buffer n e t bytes sender h).1,
  )

  -- After `map_remote_endpoint`, each write goes to the endpoint that was mapped.
  pub map_remote_endpoint-SendsTo :
      (ip : List ℕ) (port : ℕ) (a : A) (t t' : UdpStream A S)
      → net.from_string ip ≡ some a
      → map_remote_endpoint net ip port t ≡ some t'
      → SendsTo (a, port) t'
  unfolding map_remote_endpoint
  map_remote_endpoint-SendsTo ip port a t t' h e =
      subst (λ d. SendsTo d t') (mapped t' (sym e ∙ rw (h, map_remote_endpoint) refl))
        (remote-SendsTo t')
    where
      mapped :
          (t' : UdpStream A S)
          → some t' ≡ some (record t { remote_endpoint = (a, port) })
          → t'.remote_endpoint ≡ (a, port)
      mapped t' p = ap (λ x. x.remote_endpoint) (some_inj.0 p)

  data Kept (t : UdpStream A S) : Option (Memory × UdpStream A S) → Type 0 where
    ended : Kept t none
    kept :
        (m : Memory) (t' : UdpStream A S)
        → t'.remote_endpoint_cache ≡ t.remote_endpoint_cache
        → Kept t (some (m, t'))

  map-Kept :
      (m : Memory) (t : UdpStream A S) (o : Option A) (port : ℕ)
      → Kept t
          (elim (elim o as (λ x. Option (UdpStream A S)) [
            | none ↦ none
            | some address ↦ some (record t { remote_endpoint = (address, port) })
          ]) [ none ↦ none | some t' ↦ some (m, t') ])
  map-Kept m t none port = ended
  map-Kept m t (some a) port = kept m (record t { remote_endpoint = (a, port) }) refl

  read_from-cache :
      (m : Memory) (buffer : Buffer) (n : ℕ) (e : Endpoint) (t : UdpStream A S)
      → (read_from net m buffer n e t).3.remote_endpoint_cache ≡ t.remote_endpoint_cache
  unfolding read_from
  read_from-cache m buffer n e t = elim (Option-cases (net.receive_from n t.socket).0) [
    | inl h ↦ rw (h, read_from) refl
    | inr (answer, h) ↦ rw (h, read_from) refl
  ]

  apply-Kept : (op : Op) (m : Memory) (t : UdpStream A S) → Kept t (apply net op (m, t))
  unfolding apply map_remote_endpoint read_some write_some write_to
  apply-Kept (map_to ip port) m t = map-Kept m t (net.from_string ip) port
  apply-Kept (map_to_endpoint e) m t = map-Kept m t (net.from_string (c_str e.ip)) e.port
  apply-Kept (read buffer n) m t = kept _ _ (read_from-cache m buffer n null_endpoint t)
  apply-Kept (read_named buffer n e) m t = kept _ _ (read_from-cache m buffer n e t)
  apply-Kept (write buffer n) m t = kept m _ refl
  apply-Kept (write_named buffer n e) m t = kept m _ refl

  -- What follows a call that kept the cache.
  Kept-Kept :
      (t : UdpStream A S) (o : Option (Memory × UdpStream A S))
      (rest : Memory × UdpStream A S → Option (Memory × UdpStream A S))
      → Kept t o
      → ((m : Memory) (t' : UdpStream A S) → Kept t' (rest (m, t')))
      → Kept t (elim o [ none ↦ none | some w' ↦ rest w' ])
  Kept-Kept t _ rest ended later = ended
  Kept-Kept t _ rest (kept m t' e) later = go (rest (m, t')) (later m t')
    where
      go : (o : Option (Memory × UdpStream A S)) → Kept t' o → Kept t o
      go _ ended = ended
      go _ (kept m'' t'' e') = kept m'' t'' (e' ∙ e)

  apply_all-Kept :
      (ops : List Op) (m : Memory) (t : UdpStream A S) → Kept t (apply_all net ops (m, t))
  unfolding apply_all
  apply_all-Kept [] m t = kept m t refl
  apply_all-Kept (op ∷ ops) m t =
      Kept-Kept t (apply net op (m, t)) (apply_all net ops) (apply-Kept op m t)
        (λ m' t'. apply_all-Kept ops m' t')

  Kept-cache :
      (t t' : UdpStream A S) (m' : Memory) (o : Option (Memory × UdpStream A S))
      → Kept t o
      → o ≡ some (m', t')
      → t'.remote_endpoint_cache ≡ t.remote_endpoint_cache
  Kept-cache t t' m' _ ended e = ground (arith, e)
  Kept-cache t t' m' _ (kept m'' t'' same) e =
      ap (λ w. w.1.remote_endpoint_cache) (sym (some_inj.0 e)) ∙ same

  -- No mapping, reading or writing changes what `get_remote_endpoint` returns.
  pub get_remote_endpoint_stays :
      (ops : List Op) (m m' : Memory) (t t' : UdpStream A S)
      → apply_all net ops (m, t) ≡ some (m', t')
      → get_remote_endpoint t' ≡ get_remote_endpoint t
  unfolding get_remote_endpoint
  get_remote_endpoint_stays ops m m' t t' e =
      ap copy (Kept-cache t t' m' (apply_all net ops (m, t)) (apply_all-Kept ops m t) e)
