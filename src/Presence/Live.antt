-- ===== src/Presence/Live.antt =====
-- Who is online, said without Redis: a connection counts from when it connects or is refreshed,
-- for the time to live, until it disconnects.
use videochat.Presence.Connections.{
  ttl_ms, Connection, Presence, absent, stored, is_live, zcount, purge, zrem, touched, connected,
  refresh, taken_offline, disconnected, sweep, recheck, Operation, connects, refreshes, disconnects,
  sweeps, rechecks, perform, perform_all, is_online,
}
use videochat.Prelude.{
  ltb, leb, ◌==◌, if◌then◌else◌, Bool-cases, length, All, All-imp, select, count, ℕ, ◌+◌, ◌*◌, ◌≤◌,
  ◌<◌, ◌≡◌, refl, sym, ap, ◌∙◌, inl, inr, Bool, true, false, not, Option, none, some, List, [], ◌∷◌,
  map, arith,
}

-- Each connection with when it was last heard of.
pub record Heard : Type 0 where
  pub id : ℕ
  pub at : ℕ

abbrev pub forget : ℕ → List Heard → List Heard
forget id heard = select (λ h. not (h.id == id)) heard

unfoldable pub hear : List Heard → ℕ → Operation → List Heard
hear heard now (connects id) = record { id = id; at = now } ∷ forget id heard
hear heard now (refreshes id) = record { id = id; at = now } ∷ forget id heard
hear heard now (disconnects id) = forget id heard
hear heard now sweeps = heard
hear heard now rechecks = heard

unfoldable pub hear_all : List Heard → List (ℕ × Operation) → List Heard
hear_all heard [] = heard
hear_all heard ((now, operation) ∷ rest) = hear_all (hear heard now operation) rest

abbrev pub is_recent : ℕ → Heard → Bool
is_recent now h = leb now (h.at + ttl_ms)

-- Times that never go back, none before the first.
abbrev pub IsOrdered : ℕ → List (ℕ × Operation) → Type 0
IsOrdered last [] = Unit
IsOrdered last ((now, operation) ∷ rest) = (last ≤ now) × IsOrdered now rest

abbrev pub last_time : ℕ → List (ℕ × Operation) → ℕ
last_time last [] = last
last_time last ((now, operation) ∷ rest) = last_time now rest

abbrev to_connection : Heard → Connection
to_connection h = record { id = h.id; expires_at = h.at + ttl_ms }

-- After the time, Redis and the list agree on the connections that live.
record Agrees (last : ℕ) (p : Presence) (heard : List Heard) : Type 0 where
  same :
      (t : ℕ) → last < t → select (is_live t) p.conns ≡ select (is_live t) (map to_connection heard)
  kept : All (λ c. c.expires_at < p.key_until) p.conns
  recent : All (λ c. c.expires_at ≤ last + ttl_ms) p.conns

heard-forget :
    (id : ℕ) (heard : List Heard)
    → map to_connection (forget id heard) ≡ zrem id (map to_connection heard)
heard-forget id [] = refl
heard-forget id (h ∷ heard) = ground (arith, heard-forget id heard)

count-select : (p : Connection → Bool) (xs : List Connection) → count p xs ≡ length (select p xs)
count-select p [] = refl
count-select p (x ∷ xs) = ground (arith, count-select p xs)

All-select {κ} :
    (P : Connection → Type κ) (p : Connection → Bool) (xs : List Connection)
    → All P xs
    → All P (select p xs)
All-select P p [] h = tt
All-select P p (x ∷ xs) h = elim (Bool-cases (p x)) [
  | inl e ↦ rw e (h.0, All-select P p xs h.1)
  | inr e ↦ rw e (All-select P p xs h.1)
]

module _ (t : ℕ) where
  live-zrem :
      (id : ℕ) (xs : List Connection)
      → select (is_live t) (zrem id xs) ≡ zrem id (select (is_live t) xs)
  live-zrem id [] = refl
  live-zrem id (x ∷ xs) = ground (arith, live-zrem id xs)

  live-purge :
      (now : ℕ) (xs : List Connection)
      → now < t
      → select (is_live t) (purge now xs) ≡ select (is_live t) xs
  live-purge now [] h = refl
  live-purge now (x ∷ xs) h = ground (arith, live-purge now xs h)

  none_live : (xs : List Connection) → All (λ c. c.expires_at < t) xs → select (is_live t) xs ≡ []
  none_live [] h = refl
  none_live (x ∷ xs) h = ground (arith, h.0, none_live xs h.1)

  recent-live :
      (heard : List Heard) → count (is_recent t) heard ≡ count (is_live t) (map to_connection heard)
  recent-live [] = refl
  recent-live (h ∷ heard) = ground (arith, recent-live heard)

  live-count :
      (xs ys : List Connection)
      → select (is_live t) xs ≡ select (is_live t) ys
      → zcount t xs ≡ zcount t ys
  live-count xs ys e = count-select (is_live t) xs ∙ ap length e ∙ sym (count-select (is_live t) ys)

-- What Redis still has of the connections, as far as they live after the time.
stored-live :
    (p : Presence) (now t : ℕ)
    → All (λ c. c.expires_at < p.key_until) p.conns
    → now ≤ t
    → select (is_live t) (stored p now) ≡ select (is_live t) p.conns
stored-live p now t kept later = elim (Bool-cases (leb p.key_until now)) [
  | inl e ↦ rw e (
      sym (
        none_live t p.conns (
          All-imp (λ c. c.expires_at < p.key_until) (λ c. c.expires_at < t) p.conns
            (λ c h. ground (arith, h, e, later)) kept)))
  | inr e ↦ rw e refl
]

All-stored {κ} :
    (P : Connection → Type κ) (p : Presence) (now : ℕ) → All P p.conns → All P (stored p now)
All-stored P p now h = elim (Bool-cases (leb p.key_until now)) [ inl e ↦ rw e tt | inr e ↦ rw e h ]

-- What an operation makes of the connections before it adds one: some of those stored.
record Leaves (p : Presence) (now : ℕ) (heard : List Heard) (left : List Connection) : Type 0 where
  live : (t : ℕ) → now < t → select (is_live t) left ≡ select (is_live t) (map to_connection heard)
  until : All (λ c. c.expires_at < p.key_until) left
  fresh : All (λ c. c.expires_at ≤ now + ttl_ms) left

stored-Leaves :
    (last now : ℕ) (p : Presence) (heard : List Heard)
    → last ≤ now
    → Agrees last p heard
    → Leaves p now heard (stored p now)
stored-Leaves last now p heard later a = record {
  live = λ t h. stored-live p now t a.kept (omega (arith, h)) ∙ a.same t (omega (arith, later, h));
  until = All-stored (λ c. c.expires_at < p.key_until) p now a.kept;
  fresh =
      All-stored (λ c. c.expires_at ≤ now + ttl_ms) p now
        (All-imp (λ c. c.expires_at ≤ last + ttl_ms) (λ c. c.expires_at ≤ now + ttl_ms) p.conns
          (λ c h. omega (arith, h, later)) a.recent);
}

purge-Leaves :
    (now : ℕ) (p : Presence) (heard : List Heard) (left : List Connection)
    → Leaves p now heard left
    → Leaves p now heard (purge now left)
purge-Leaves now p heard left l = record {
  live = λ t h. live-purge t now left h ∙ l.live t h;
  until = All-select (λ c. c.expires_at < p.key_until) (λ c. ltb now c.expires_at) left l.until;
  fresh = All-select (λ c. c.expires_at ≤ now + ttl_ms) (λ c. ltb now c.expires_at) left l.fresh;
}

zrem-Leaves :
    (now id : ℕ) (p : Presence) (heard : List Heard) (left : List Connection)
    → Leaves p now heard left
    → Leaves p now (forget id heard) (zrem id left)
zrem-Leaves now id p heard left l = record {
  live = λ t h.
      live-zrem t id left
      ∙ ap (zrem id) (l.live t h)
      ∙ sym (live-zrem t id (map to_connection heard))
      ∙ ap (select (is_live t)) (sym (heard-forget id heard));
  until = All-select (λ c. c.expires_at < p.key_until) (λ c. not (c.id == id)) left l.until;
  fresh = All-select (λ c. c.expires_at ≤ now + ttl_ms) (λ c. not (c.id == id)) left l.fresh;
}

touched-Agrees :
    (now id : ℕ) (p : Presence) (heard : List Heard) (left : List Connection)
    (announced : List Bool)
    → Leaves p now heard left
    → Agrees now (touched p left id now announced) (record { id = id; at = now } ∷ forget id heard)
touched-Agrees now id p heard left announced l =
    let z : Leaves p now (forget id heard) (zrem id left) = zrem-Leaves now id p heard left l in
    record {
      same = λ t h. ground (arith, z.live t h);
      kept = (
        omega arith,
        All-imp (λ c. c.expires_at ≤ now + ttl_ms) (λ c. c.expires_at < now + ttl_ms * 2)
            (zrem id left) (λ c h. omega (arith, h)) z.fresh,
      );
      recent = (omega arith, z.fresh);
    }

left-Agrees :
    (now : ℕ) (p q : Presence) (heard : List Heard)
    → q.key_until ≡ p.key_until
    → Leaves p now heard q.conns
    → Agrees now q heard
left-Agrees now p q heard e l = record { same = l.live; kept = rw e l.until; recent = l.fresh }

taken_offline-Agrees :
    (now : ℕ) (p : Presence) (heard : List Heard) (left : List Connection) (o : Option ℕ)
    → Leaves p now heard left
    → Agrees now (taken_offline p left o) heard
taken_offline-Agrees now p heard left none l =
    left-Agrees now p (record p { conns = left }) heard refl l
taken_offline-Agrees now p heard left (some score) l =
    left-Agrees now p (taken_offline p left (some score)) heard refl l

-- Either way of a test.
either-Agrees :
    (now : ℕ) (heard : List Heard) (b : Bool) (x y : Presence)
    → Agrees now x heard
    → Agrees now y heard
    → Agrees now (if b then x else y) heard
either-Agrees now heard true x y hx hy = hx
either-Agrees now heard false x y hx hy = hy

perform-Agrees :
    (last now : ℕ) (p : Presence) (heard : List Heard) (operation : Operation)
    → last ≤ now
    → Agrees last p heard
    → Agrees now (perform p now operation) (hear heard now operation)
unfolding perform hear connected refresh disconnected sweep recheck
perform-Agrees last now p heard (connects id) later a =
    touched-Agrees now id p heard (purge now (stored p now)) _
      (purge-Leaves now p heard (stored p now) (stored-Leaves last now p heard later a))
perform-Agrees last now p heard (refreshes id) later a =
    touched-Agrees now id p heard (stored p now) _ (stored-Leaves last now p heard later a)
perform-Agrees last now p heard (disconnects id) later a =
    let left : List Connection = zrem id (stored p now) in
    let l : Leaves p now (forget id heard) left =
      zrem-Leaves now id p heard (stored p now) (stored-Leaves last now p heard later a) in
    either-Agrees now (forget id heard) (ltb 0 (zcount now left)) _ _
      (left-Agrees now p (record p { conns = left }) (forget id heard) refl l)
      (taken_offline-Agrees now p (forget id heard) left p.online l)
perform-Agrees last now p heard sweeps later a =
    let l : Leaves p now heard (stored p now) = stored-Leaves last now p heard later a in
    either-Agrees now heard (ltb 0 (zcount now (stored p now))) _ _
      (left-Agrees now p (record p { conns = stored p now }) heard refl l)
      (taken_offline-Agrees now p heard (purge now (stored p now)) p.online
        (purge-Leaves now p heard (stored p now) l))
perform-Agrees last now p heard rechecks later a =
    let stays : Agrees now p heard = record {
      same = λ t h. a.same t (omega (arith, later, h));
      kept = a.kept;
      recent =
          All-imp (λ c. c.expires_at ≤ last + ttl_ms) (λ c. c.expires_at ≤ now + ttl_ms) p.conns
            (λ c h. omega (arith, h, later)) a.recent;
    } in
    either-Agrees now heard (ltb 0 (zcount now (stored p now))) _ _
      (record { same = stays.same; kept = stays.kept; recent = stays.recent }) stays

perform_all-Agrees :
    (last : ℕ) (p : Presence) (heard : List Heard) (rest : List (ℕ × Operation))
    → IsOrdered last rest
    → Agrees last p heard
    → Agrees (last_time last rest) (perform_all p rest) (hear_all heard rest)
unfolding perform_all hear_all
perform_all-Agrees last p heard [] ordered a = a
perform_all-Agrees last p heard ((now, operation) ∷ rest) ordered a =
    perform_all-Agrees now (perform p now operation) (hear heard now operation) rest ordered.1
      (perform-Agrees last now p heard operation ordered.0 a)

-- Whatever connects, is refreshed, disconnects, is swept or announced, in the order of time: at
-- any later time the user is online exactly when some connection was heard of within the time to
-- live and has not disconnected since.
pub online_when_heard :
    (operations : List (ℕ × Operation)) (t : ℕ)
    → IsOrdered 0 operations
    → last_time 0 operations < t
    → is_online (perform_all absent operations) t
      ≡ ltb 0 (count (is_recent t) (hear_all [] operations))
unfolding is_online
online_when_heard operations t ordered later =
    let a : Agrees (last_time 0 operations) (perform_all absent operations)
        (hear_all [] operations) =
      perform_all-Agrees 0 absent [] operations ordered
        (record { same = λ u h. refl; kept = tt; recent = tt }) in
    let q : Presence = perform_all absent operations in
    let heard : List Heard = hear_all [] operations in
    let live : zcount t (stored q t) ≡ count (is_recent t) heard =
      live-count t (stored q t) (map to_connection heard)
        (stored-live q t t a.kept (omega arith) ∙ a.same t later)
      ∙ sym (recent-live t heard) in
    rw live refl
