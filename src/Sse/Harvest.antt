-- ===== src/Sse/Harvest.antt =====
-- What the client receives of a stream, and what is read of it.
use general_api.Base.{
  if◌then◌else◌, Bool-cases, ℕ, ◌+◌, String, ◌≡◌, refl, sym, ap, subst, ◌∙◌, inl, inr, Bool, true,
  false, ◌||◌, Option, none, some, List, [], ◌∷◌, ◌++◌, map, append_assoc, append-nil, arith,
}
use general_api.Cost.Usage.{Usage}
use general_api.Sse.{
  new_pipe, pipe_line, pipe_sse, read_line, pipe_lines, read_rest, write, write_event, Line, Client,
  Pipe, gone, shown, usage_after,
}

-- A context that was cancelled stays so.
abbrev pub is_nil {ℓ} : {A : Type ℓ} → List A → Bool
is_nil [] = true
is_nil (x ∷ xs) = false

abbrev pub Stays : Client → Type 0
Stays client = (i : ℕ) → client.cancelled i ≡ true → client.cancelled (i + 1) ≡ true

-- The texts up to each blank line, and those that are left.
abbrev pub texts : (String → String) → List String → List Line → Option Line → List (List String)
texts scrub event [] none = (if is_nil event then [] else event ∷ [])
texts scrub event [] (some l) = (event ++ shown scrub l ∷ []) ∷ []
texts scrub event (l ∷ ls) rest =
    let event' = event ++ shown scrub l ∷ [] in
    if l.blank then event' ∷ texts scrub [] ls rest else texts scrub event' ls rest

abbrev pub last_usage : Option Usage → List Line → Option Line → Option Usage
last_usage u [] none = u
last_usage u [] (some l) = usage_after u l.payload
last_usage u (l ∷ ls) rest = last_usage (usage_after u l.payload) ls rest

-- The rest of a run from `p`: the events `es` are sent up to a point, all of them unless the client
-- has left.
record Sends (client : Client) (es : List (List String)) (p q : Pipe) : Type 0 where
  kept : List (List String)
  dropped : List (List String)
  sent : q.sent ≡ p.sent ++ kept
  split : kept ++ dropped ≡ es
  unless_gone : gone client q || is_nil dropped ≡ true
  none_kept : gone client p ≡ true → kept ≡ []
  stays_gone : gone client p ≡ true → gone client q ≡ true

write_event-Sends :
    (rewrite : List String → List String) (client : Client) (x : String) (xs : List String)
    (p : Pipe)
    → Stays client
    → p.event ≡ x ∷ xs
    → Sends client (rewrite (x ∷ xs) ∷ []) p (write_event rewrite client p)
unfolding write_event write gone
write_event-Sends rewrite client x xs p st e =
    rw e (elim (Bool-cases (p.failed || client.cancelled p.now)) [
      | inl g ↦ rw g (record {
        kept = [];
        dropped = rewrite (x ∷ xs) ∷ [];
        sent = sym (append-nil p.sent);
        split = refl;
        unless_gone = ground (arith, g, st p.now);
        none_kept = λ h. refl;
        stays_gone = λ h. ground (arith, g, st p.now);
      })
      | inr g ↦ elim (Bool-cases (client.refuses p.now)) [
        | inl r ↦
            rw (g, r)
              (record {
                kept = [];
                dropped = rewrite (x ∷ xs) ∷ [];
                sent = sym (append-nil p.sent);
                split = refl;
                unless_gone = refl;
                none_kept = λ h. refl;
                stays_gone = λ h. refl;
              })
        | inr r ↦
            rw (g, r)
              (record {
                kept = rewrite (x ∷ xs) ∷ [];
                dropped = [];
                sent = refl;
                split = refl;
                unless_gone = ground arith;
                none_kept = λ h. absurd (ground (arith, h, g));
                stays_gone = λ h. absurd (ground (arith, h, g));
              })
      ]
    ])

compose :
    (client : Client) (es fs : List (List String)) (p q r : Pipe)
    → Sends client es p q
    → Sends client fs q r
    → Sends client (es ++ fs) p r
compose client es fs p q r a b = joined a.dropped a.split a.unless_gone
  where
    joined :
        (d : List (List String))
        → a.kept ++ d ≡ es
        → gone client q || is_nil d ≡ true
        → Sends client (es ++ fs) p r
    joined [] s u =
        let k : a.kept ≡ es = sym (append-nil a.kept) ∙ s in
        record {
          kept = es ++ b.kept;
          dropped = b.dropped;
          sent = rw (b.sent, a.sent, k, append_assoc p.sent es b.kept) refl;
          split = rw (append_assoc es b.kept b.dropped, b.split) refl;
          unless_gone = b.unless_gone;
          none_kept = λ g. rw (sym k, a.none_kept g) (b.none_kept (a.stays_gone g));
          stays_gone = λ g. b.stays_gone (a.stays_gone g);
        }
    joined (d ∷ ds) s u =
        let g : gone client q ≡ true = ground (arith, u) in
        record {
          kept = a.kept;
          dropped = d ∷ ds ++ fs;
          sent = rw (b.sent, b.none_kept g, append-nil q.sent) a.sent;
          split = sym (append_assoc a.kept (d ∷ ds) fs) ∙ ap (λ z. z ++ fs) s;
          unless_gone = rw (b.stays_gone g) refl;
          none_kept = a.none_kept;
          stays_gone = λ g. b.stays_gone (a.stays_gone g);
        }

write-Sends :
    (rewrite : List String → List String) (client : Client) (event : List String) (p : Pipe)
    → Stays client
    → p.event ≡ event
    → Sends client
        (if is_nil event then [] else rewrite event ∷ [])
        p
        (write_event rewrite client p)
unfolding write_event
write-Sends rewrite client (x ∷ xs) p st e = write_event-Sends rewrite client x xs p st e
write-Sends rewrite client [] p st e = rw e (record {
  kept = [];
  dropped = [];
  sent = sym (append-nil p.sent);
  split = refl;
  unless_gone = ground arith;
  none_kept = λ h. refl;
  stays_gone = λ h. h;
})

event_written :
    (rewrite : List String → List String) (client : Client) (event : List String) (p : Pipe)
    → p.event ≡ event
    → ((write_event rewrite client p).event ≡ []) × ((write_event rewrite client p).usage ≡ p.usage)
unfolding write_event write
event_written rewrite client [] p e = rw e (refl, refl)
event_written rewrite client (x ∷ xs) p e = rw e (ground arith)

-- Reading a line sends nothing.
after_read :
    (scrub : String → String) (client : Client) (es : List (List String)) (l : Line) (p q : Pipe)
    → Sends client es (read_line scrub l p) q
    → Sends client es p q
unfolding read_line gone
after_read scrub client es l p q a = record {
  kept = a.kept;
  dropped = a.dropped;
  sent = a.sent;
  split = a.split;
  unless_gone = a.unless_gone;
  none_kept = a.none_kept;
  stays_gone = a.stays_gone;
}

snoc_some : (event : List String) (x : String) → is_nil (event ++ x ∷ []) ≡ false
snoc_some [] x = refl
snoc_some (y ∷ ys) x = refl

read_written :
    (scrub : String → String) (rewrite : List String → List String) (client : Client) (l : Line)
    (p : Pipe)
    → Stays client
    → Sends client
        (rewrite (p.event ++ shown scrub l ∷ []) ∷ [])
        p
        (write_event rewrite client (read_line scrub l p))
unfolding read_line
read_written scrub rewrite client l p st =
    let q = read_line scrub l p in
    after_read scrub client _ l p _ (
      subst
        (λ b.
          Sends client (if b then [] else rewrite q.event ∷ []) q (write_event rewrite client q))
        (snoc_some p.event (shown scrub l)) (write-Sends rewrite client q.event q st refl))

-- The end of a stream: what is left of an event is written.
rest-Sends :
    (scrub : String → String) (rewrite : List String → List String) (client : Client)
    (rest : Option Line) (p : Pipe)
    → Stays client
    → Sends client
        (map rewrite (texts scrub p.event [] rest))
        p
        (write_event rewrite client (read_rest scrub rest p))
unfolding read_rest read_line
rest-Sends scrub rewrite client none p st =
    subst (λ z. Sends client z p (write_event rewrite client p)) (mapped_if p.event)
      (write-Sends rewrite client p.event p st refl)
  where
    mapped_if :
        (ev : List String)
        → (if is_nil ev then [] else rewrite ev ∷ [])
          ≡ map rewrite (if is_nil ev then [] else ev ∷ [])
    mapped_if [] = refl
    mapped_if (x ∷ xs) = refl
rest-Sends scrub rewrite client (some l) p st = read_written scrub rewrite client l p st

lines-Sends :
    (scrub : String → String) (rewrite : List String → List String) (client : Client)
    (lines : List Line) (rest : Option Line) (p : Pipe)
    → Stays client
    → Sends client (map rewrite (texts scrub p.event lines rest)) p (
        write_event rewrite client (read_rest scrub rest (pipe_lines scrub rewrite client lines p)))
unfolding pipe_lines pipe_line read_line
lines-Sends scrub rewrite client [] rest p st = rest-Sends scrub rewrite client rest p st
lines-Sends scrub rewrite client (l ∷ ls) rest p st =
    let q = read_line scrub l p in
    let w = write_event rewrite client q in
    elim (Bool-cases l.blank) [
      | inl b ↦ rw b (
          compose client _ _ p w _ (read_written scrub rewrite client l p st) (
            subst
              (λ ev. Sends client (map rewrite (texts scrub ev ls rest)) w (
                write_event rewrite client
                  (read_rest scrub rest (pipe_lines scrub rewrite client ls w))))
              (event_written rewrite client q.event q refl).0
              (lines-Sends scrub rewrite client ls rest w st)))
      | inr b ↦
          rw b (after_read scrub client _ l p _ (lines-Sends scrub rewrite client ls rest q st))
    ]

rest_usage :
    (scrub : String → String) (rewrite : List String → List String) (client : Client)
    (rest : Option Line) (p : Pipe)
    → (write_event rewrite client (read_rest scrub rest p)).usage ≡ last_usage p.usage [] rest
unfolding read_rest read_line
rest_usage scrub rewrite client none p = (event_written rewrite client p.event p refl).1
rest_usage scrub rewrite client (some l) p =
    let q = read_line scrub l p in (event_written rewrite client q.event q refl).1

lines_usage :
    (scrub : String → String) (rewrite : List String → List String) (client : Client)
    (lines : List Line) (rest : Option Line) (p : Pipe)
    → (write_event rewrite client
        (read_rest scrub rest (pipe_lines scrub rewrite client lines p))).usage
      ≡ last_usage p.usage lines rest
unfolding pipe_lines pipe_line read_line
lines_usage scrub rewrite client [] rest p = rest_usage scrub rewrite client rest p
lines_usage scrub rewrite client (l ∷ ls) rest p =
    let q = read_line scrub l p in
    elim (Bool-cases l.blank) [
      | inl b ↦ rw b (
          lines_usage scrub rewrite client ls rest (write_event rewrite client q)
          ∙ ap (λ u. last_usage u ls rest) (event_written rewrite client q.event q refl).1)
      | inr b ↦ rw b (lines_usage scrub rewrite client ls rest q)
    ]

-- Whenever a client leaves that stays away, and whichever writes it refuses, the last usage of the
-- stream is read; the client receives the events of the stream, rewritten, up to some point; and
-- all of them unless it is reported to have left.
pub pipe_sse-harvests :
    (scrub : String → String) (rewrite : List String → List String) (client : Client)
    (lines : List Line) (rest : Option Line) (clean : Bool)
    → Stays client
    → let r = pipe_sse scrub rewrite client lines rest clean in
      (r.usage ≡ last_usage none lines rest)
      × ((dropped : List (List String)) × (r.sent ++ dropped
            ≡ map rewrite (texts scrub [] lines rest))
          × (r.client_gone || is_nil dropped ≡ true))
unfolding pipe_sse
pipe_sse-harvests scrub rewrite client lines rest clean st =
    let s = lines-Sends scrub rewrite client lines rest new_pipe st in
    (
      lines_usage scrub rewrite client lines rest new_pipe,
      (s.dropped, ap (λ z. z ++ s.dropped) s.sent ∙ s.split, s.unless_gone),
    )
