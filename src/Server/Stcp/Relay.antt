-- ===== src/Server/Stcp/Relay.antt =====
-- frps.py: the bytes that the STCP relay gets from each side of a connection, and hands on.
use frp_python.Prelude.{
  nat_beq, if◌then◌else◌, ◌==◌, ==_refl, Bool-cases, Dict, lookup, insert, lookup-insert, ℕ, String,
  ◌≡◌, refl, sym, ap, subst₂, ◌≢◌, inl, inr, Bool, true, false, ◌&&◌, ◌||◌, none, some, List, [],
  ◌∷◌, ◌++◌, append-nil, append_assoc, arith, eq_iff, nat_eq, string_eq, list_eq,
}
use frp_python.Protocol.Codec.{Bytes}
use frp_python.Server.State.{Server, StcpConn, Reply}
use frp_python.Server.Stcp.{
  side_of, other_writer, pending, flushed, held, relay_to, relay_side, relay_data,
  handle_stcp_visitor_ready, handle_stcp_data, link_provider,
}

-- The bytes of a connection in the messages to a writer, in order.
unfoldable pub delivered : ℕ → String → List (ℕ × Reply) → Bytes
delivered w conn_id [] = []
delivered w conn_id ((v, Reply.conn_data i bs) ∷ out) =
    if v == w && i == conn_id then bs ++ delivered w conn_id out else delivered w conn_id out
delivered w conn_id ((v, m) ∷ out) = delivered w conn_id out

delivered-append :
    (w : ℕ) (i : String) (xs ys : List (ℕ × Reply))
    → delivered w i (xs ++ ys) ≡ delivered w i xs ++ delivered w i ys
unfolding delivered
delivered-append w i [] ys = refl
delivered-append w i ((v, Reply.conn_data j bs) ∷ xs) ys =
    ground
      (arith, delivered-append w i xs ys, append_assoc bs (delivered w i xs) (delivered w i ys))
delivered-append w i ((v, m) ∷ xs) ys = delivered-append w i xs ys

-- Sending data to a writer.
delivered-send :
    (w v : ℕ) (i : String) (bs : Bytes) (out : List (ℕ × Reply))
    → delivered w i (out ++ (v, Reply.conn_data i bs) ∷ [])
      ≡ delivered w i out ++ (if v == w then bs else [])
unfolding delivered
delivered-send w v i bs out = rw delivered-append (ground (arith, eq_iff i i, append-nil bs))

-- What the two clients of one connection do.
pub data RelayEvent : Type 0 where
  from_visitor : Bytes → RelayEvent
  from_provider : Bytes → RelayEvent
  ready : String → RelayEvent

-- What an event sends up to the provider, and down to the visitor.
abbrev pub up_of : RelayEvent → Bytes
up_of (from_visitor bs) = bs
up_of _ = []

abbrev pub down_of : RelayEvent → Bytes
down_of (from_provider bs) = bs
down_of _ = []

abbrev pub upward : List RelayEvent → Bytes
upward [] = []
upward (ev ∷ evs) = up_of ev ++ upward evs

abbrev pub downward : List RelayEvent → Bytes
downward [] = []
downward (ev ∷ evs) = down_of ev ++ downward evs

module _ (alive : ℕ → Bool) (v p : ℕ) (conn_id : String) (v_alive : alive v ≡ true)
    (p_alive : alive p ≡ true) (apart : v ≢ p) where
  abbrev pub relay_step : ℕ → RelayEvent → Server → Server
  relay_step now (from_visitor bs) s = handle_stcp_data alive now conn_id bs v s
  relay_step now (from_provider bs) s = handle_stcp_data alive now conn_id bs p s
  relay_step now (ready name) s = handle_stcp_visitor_ready alive now name conn_id p s

  abbrev pub relay_run : ℕ → List RelayEvent → Server → Server
  relay_run now [] s = s
  relay_run now (ev ∷ evs) s = relay_run now evs (relay_step now ev s)

  -- The entry of a connection between `v` and `p`, which is linked to `p` or not yet.
  abbrev entry : String → Bool → Bytes → ℕ → StcpConn
  entry name linked buf t = record {
    proxy_name = name;
    visitor_writer = some v;
    provider_writer = if linked then some p else none;
    visitor_buffer = buf;
    provider_buffer = [];
    last_activity = t;
  }

  -- The visitor has sent `up`, of which the end may be buffered, and the provider `down`.
  pub record Flows (up down : Bytes) (s : Server) : Type 0 where
    pub proxy : String
    pub linked : Bool
    pub buffered : Bytes
    pub seen : ℕ
    pub found : lookup conn_id s.stcp_conns ≡ some (entry proxy linked buffered seen)
    pub up_eq : delivered p conn_id s.outbox ++ buffered ≡ up
    pub down_eq : delivered v conn_id s.outbox ≡ down

  v_is_v : nat_beq v v ≡ true
  v_is_v = ground arith

  p_is_p : nat_beq p p ≡ true
  p_is_p = ground arith

  p_not_v : nat_beq p v ≡ false
  p_not_v = ground arith

  v_not_p : nat_beq v p ≡ false
  v_not_p = ground arith

  found_again :
      (c : StcpConn) (d : Dict String StcpConn) → lookup conn_id (insert conn_id c d) ≡ some c
  found_again c d = simp (lookup-insert, ==_refl)

  -- A message to `p` changes what is delivered to `p`, and nothing of `v`; and the other way.
  to_p :
      (bs : Bytes) (out : List (ℕ × Reply))
      → delivered p conn_id (out ++ (p, Reply.conn_data conn_id bs) ∷ [])
        ≡ delivered p conn_id out ++ bs
  to_p bs out = rw (delivered-send p p conn_id bs out) (rw p_is_p)

  to_p_only :
      (bs : Bytes) (out : List (ℕ × Reply))
      → delivered v conn_id (out ++ (p, Reply.conn_data conn_id bs) ∷ []) ≡ delivered v conn_id out
  to_p_only bs out = rw (delivered-send v p conn_id bs out) (rw p_not_v (append-nil _))

  to_v :
      (bs : Bytes) (out : List (ℕ × Reply))
      → delivered v conn_id (out ++ (v, Reply.conn_data conn_id bs) ∷ [])
        ≡ delivered v conn_id out ++ bs
  to_v bs out = rw (delivered-send v v conn_id bs out) (rw v_is_v)

  to_v_only :
      (bs : Bytes) (out : List (ℕ × Reply))
      → delivered p conn_id (out ++ (v, Reply.conn_data conn_id bs) ∷ []) ≡ delivered p conn_id out
  to_v_only bs out = rw (delivered-send p v conn_id bs out) (rw v_not_p (append-nil _))

  visitor_at :
      (now : ℕ) (bs : Bytes) (proxy : String) (linked : Bool) (buf : Bytes) (t : ℕ) (s : Server)
      → Flows
          (delivered p conn_id s.outbox ++ buf ++ bs)
          (delivered v conn_id s.outbox)
          (relay_data alive now conn_id bs v (entry proxy linked buf t) s)
  unfolding relay_data side_of relay_side relay_to other_writer held pending flushed
  visitor_at now bs proxy false buf t s = rw v_is_v (record {
    proxy = proxy;
    linked = false;
    buffered = buf ++ bs;
    seen = now;
    found = found_again _ s.stcp_conns;
    up_eq = sym (append_assoc (delivered p conn_id s.outbox) buf bs);
    down_eq = refl;
  })
  visitor_at now bs proxy true [] t s =
      rw (p_not_v, v_is_v, p_alive)
        (record {
          proxy = proxy;
          linked = true;
          buffered = [];
          seen = now;
          found = found_again _ s.stcp_conns;
          up_eq = simp (append-nil, to_p);
          down_eq = to_p_only bs s.outbox;
        })
  visitor_at now bs proxy true (b ∷ buf) t s =
      rw (p_not_v, v_is_v, p_alive, found_again _ s.stcp_conns)
        (record {
          proxy = proxy;
          linked = true;
          buffered = [];
          seen = now;
          found = found_again _ (insert conn_id _ s.stcp_conns);
          up_eq = simp (append-nil, to_p);
          down_eq = simp to_p_only;
        })

  provider_at :
      (now : ℕ) (bs : Bytes) (proxy : String) (linked : Bool) (buf : Bytes) (t : ℕ) (s : Server)
      → Flows
          (delivered p conn_id s.outbox ++ buf)
          (delivered v conn_id s.outbox ++ bs)
          (relay_data alive now conn_id bs p (entry proxy linked buf t) s)
  unfolding relay_data side_of relay_side relay_to other_writer held pending flushed
  provider_at now bs proxy false buf t s =
      rw (v_not_p, v_alive)
        (record {
          proxy = proxy;
          linked = true;
          buffered = buf;
          seen = now;
          found = found_again _ s.stcp_conns;
          up_eq = ap (λ d. d ++ buf) (to_v_only bs s.outbox);
          down_eq = to_v bs s.outbox;
        })
  provider_at now bs proxy true buf t s =
      rw (p_is_p, v_alive)
        (record {
          proxy = proxy;
          linked = true;
          buffered = buf;
          seen = now;
          found = found_again _ s.stcp_conns;
          up_eq = ap (λ d. d ++ buf) (to_v_only bs s.outbox);
          down_eq = to_v bs s.outbox;
        })

  ready_at :
      (now : ℕ) (name proxy : String) (linked : Bool) (buf : Bytes) (t : ℕ) (s : Server)
      → lookup conn_id s.stcp_conns ≡ some (entry proxy linked buf t)
      → Flows
          (delivered p conn_id s.outbox ++ buf)
          (delivered v conn_id s.outbox)
          (link_provider alive now conn_id p (some (entry proxy linked buf t)) s)
  unfolding link_provider flushed
  ready_at now name proxy linked [] t s e = record {
    proxy = proxy;
    linked = true;
    buffered = [];
    seen = now;
    found = found_again _ s.stcp_conns;
    up_eq = refl;
    down_eq = refl;
  }
  ready_at now name proxy linked (b ∷ buf) t s e =
      rw (p_alive, found_again _ s.stcp_conns)
        (record {
          proxy = proxy;
          linked = true;
          buffered = [];
          seen = now;
          found = found_again _ (insert conn_id _ s.stcp_conns);
          up_eq = simp (append-nil, to_p);
          down_eq = to_p_only (b ∷ buf) s.outbox;
        })

  step_Flows :
      (now : ℕ) (ev : RelayEvent) (up down : Bytes) (s : Server)
      → Flows up down s
      → Flows (up ++ up_of ev) (down ++ down_of ev) (relay_step now ev s)
  unfolding handle_stcp_data handle_stcp_visitor_ready
  step_Flows now (from_visitor bs) up down s f =
      rw (← f.up_eq, ← f.down_eq, append-nil (delivered v conn_id s.outbox), f.found)
        (visitor_at now bs f.proxy f.linked f.buffered f.seen s)
  step_Flows now (from_provider bs) up down s f =
      rw (← f.up_eq, ← f.down_eq, append-nil (delivered p conn_id s.outbox ++ f.buffered), f.found)
        (provider_at now bs f.proxy f.linked f.buffered f.seen s)
  step_Flows now (ready name) up down s f =
      rw (append-nil up, append-nil down)
        (elim (Bool-cases (name == "" || conn_id == "")) [
          | inl blank ↦ rw blank f
          | inr named ↦
              rw (named, ← f.up_eq, ← f.down_eq, f.found)
                (ready_at now name f.proxy f.linked f.buffered f.seen s f.found)
        ])

  -- Through any sequence of data from both sides and readiness messages of the provider, each
  -- handled to its end before the next, the bytes delivered to the provider and those still
  -- buffered are the visitor's bytes in order, and the bytes delivered to the visitor are the
  -- provider's in order.
  pub relay_run-Flows :
      (now : ℕ) (evs : List RelayEvent) (up down : Bytes) (s : Server)
      → Flows up down s
      → Flows (up ++ upward evs) (down ++ downward evs) (relay_run now evs s)
  relay_run-Flows now [] up down s f = rw (append-nil up, append-nil down) f
  relay_run-Flows now (ev ∷ evs) up down s f =
      subst₂ (λ u d. Flows u d (relay_run now evs (relay_step now ev s)))
        (append_assoc up (up_of ev) (upward evs)) (append_assoc down (down_of ev) (downward evs))
        (relay_run-Flows now evs (up ++ up_of ev) (down ++ down_of ev) (relay_step now ev s)
          (step_Flows now ev up down s f))
