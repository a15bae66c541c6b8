-- ===== src/Events/Order.antt =====
-- scripts/pd_fleet/events.py: what the appends keep of a log.
use project_development_skil.Base.{
  ◌≤◌, ◌<◌, String, Bool, true, false, not, ◌&&◌, ◌||◌, some, List, [], ◌∷◌, ◌++◌, ◌≡◌, refl, arith,
  eq_iff, ltb, leb, str_eq, all, any, length, length-append, Option-cases, Bool-cases, inl, inr,
  ◌⊎◌, ◌∙◌, sym, ap,
}
use project_development_skil.Events.{
  FleetEvent, Json, EventLog, Lines, Found, fresh, repeated, clash, max_events, max_log_line_bytes,
  records, owns, scan, follows, write_line, append_found, append, append_all,
}

-- The sequences go up
abbrev pub is_increasing : Lines → Bool
is_increasing [] = true
is_increasing (a ∷ []) = true
is_increasing (a ∷ b ∷ rest) = ltb a.sequence b.sequence && is_increasing (b ∷ rest)

abbrev pub names : String → Lines → Bool
names k lines = any (λ (e : FleetEvent). str_eq e.event_id k) lines

abbrev pub distinct_ids : Lines → Bool
distinct_ids [] = true
distinct_ids (e ∷ rest) = not (names e.event_id rest) && distinct_ids rest

-- A log as appends make it
pub record IsSound (json : Json) (log : EventLog) (lines : Lines) : Type 0 where
  pub increasing : is_increasing lines ≡ true
  pub distinct : distinct_ids lines ≡ true
  pub owned : all (owns log) lines ≡ true
  pub short : all (λ e. leb (json.line_bytes e) max_log_line_bytes) lines ≡ true
  pub few : length lines ≤ max_events

-- What an append that writes has found
pub record IsWritten (json : Json) (log : EventLog) (e : FleetEvent) (lines : Lines) : Type 0 where
  pub owned : owns log e ≡ true
  pub readable : records json lines ≡ some lines
  pub found : scan json e lines ≡ fresh
  pub after : follows e.sequence lines ≡ true
  pub room : length lines < max_events
  pub short : json.line_bytes e ≤ max_log_line_bytes

records-same :
    (json : Json) (lines : Lines) {read : Lines} → records json lines ≡ some read → read ≡ lines
unfolding records
records-same json lines h = ground arith

found-cases :
    (json : Json) (log : EventLog) (e : FleetEvent) (lines : Lines) (f : Found)
    → scan json e lines ≡ f
    → owns log e ≡ true
    → records json lines ≡ some lines
    → ((append_found json e lines f).1 ≡ lines)
      ⊎ (IsWritten json log e lines × (append_found json e lines f ≡ (some e, lines ++ e ∷ [])))
unfolding append_found write_line
found-cases json log e lines clash s o r = inl refl
found-cases json log e lines (repeated old) s o r = inl refl
found-cases json log e lines fresh s o r = elim (Bool-cases (follows e.sequence lines)) [
  | inr back ↦ inl (rw back refl)
  | inl later ↦
      elim (Bool-cases
        (leb max_events (length lines) || ltb max_log_line_bytes (json.line_bytes e))) [
          | inl full ↦ inl (rw (later, full) refl)
          | inr fits ↦ inr (
            record {
              owned = o;
              readable = r;
              found = s;
              after = later;
              room = ground arith;
              short = ground arith;
            },
            rw (later, fits) refl,
          )
        ]
]

-- An append leaves the log, or adds the event at its end.
pub append-cases :
    (json : Json) (log : EventLog) (e : FleetEvent) (lines : Lines)
    → ((append json log e lines).1 ≡ lines)
      ⊎ (IsWritten json log e lines × (append json log e lines ≡ (some e, lines ++ e ∷ [])))
unfolding append
append-cases json log e lines = elim (Bool-cases (owns log e)) [
  | inr foreign ↦ inl (rw foreign refl)
  | inl own ↦ elim (Option-cases (records json lines)) [
    | inl bad ↦ inl (rw (own, bad) refl)
    | inr (read, r) ↦
        (let q = records-same json lines r in
          let s = rw q at r in
          rw (own, s) (found-cases json log e lines (scan json e lines) refl own s))
  ]
]

increasing-snoc :
    (e : FleetEvent) (lines : Lines)
    → is_increasing lines ≡ true
    → follows e.sequence lines ≡ true
    → is_increasing (lines ++ e ∷ []) ≡ true
unfolding follows
increasing-snoc e [] h f = refl
increasing-snoc e (a ∷ []) h f = ground arith
increasing-snoc e (a ∷ b ∷ rest) h f = ground (arith, increasing-snoc e (b ∷ rest))

fresh-names :
    (json : Json) (e : FleetEvent) (lines : Lines)
    → scan json e lines ≡ fresh
    → names e.event_id lines ≡ false
unfolding scan
fresh-names json e [] h = refl
fresh-names json e (old ∷ rest) h = ground (arith, fresh-names json e rest)

names-snoc :
    (k : String) (e : FleetEvent) (lines : Lines)
    → names k (lines ++ e ∷ []) ≡ (names k lines || str_eq e.event_id k)
names-snoc k e [] = ground arith
names-snoc k e (a ∷ rest) = ground (arith, names-snoc k e rest)

distinct-snoc :
    (e : FleetEvent) (lines : Lines)
    → distinct_ids lines ≡ true
    → names e.event_id lines ≡ false
    → distinct_ids (lines ++ e ∷ []) ≡ true
distinct-snoc e [] h n = refl
distinct-snoc e (a ∷ rest) h n = ground (
  arith,
  eq_iff a.event_id e.event_id,
  eq_iff e.event_id a.event_id,
  names-snoc a.event_id e rest,
  distinct-snoc e rest,
)

all-snoc :
    (p : FleetEvent → Bool) (e : FleetEvent) (lines : Lines)
    → all p lines ≡ true
    → p e ≡ true
    → all p (lines ++ e ∷ []) ≡ true
all-snoc p e [] h g = ground arith
all-snoc p e (a ∷ rest) h g = ground (arith, all-snoc p e rest)

module _ (json : Json) (log : EventLog) where
  written-IsSound :
      (e : FleetEvent) (lines : Lines)
      → IsWritten json log e lines
      → IsSound json log lines
      → IsSound json log (lines ++ e ∷ [])
  written-IsSound e lines w s = record {
    increasing = increasing-snoc e lines s.increasing w.after;
    distinct = distinct-snoc e lines s.distinct (fresh-names json e lines w.found);
    owned = all-snoc (owns log) e lines s.owned w.owned;
    short =
        all-snoc (λ a. leb (json.line_bytes a) max_log_line_bytes) e lines s.short
          (ground (arith, w.short));
    few = ground (arith, w.room, length-append lines (e ∷ []));
  }

  append-IsSound :
      (e : FleetEvent) (lines : Lines)
      → IsSound json log lines
      → IsSound json log (append json log e lines).1
  append-IsSound e lines s = elim (append-cases json log e lines) [
    | inl same ↦ rw same s
    | inr (w, h) ↦ rw h (written-IsSound e lines w s)
  ]

  all-IsSound :
      (events : List FleetEvent) (lines : Lines)
      → IsSound json log lines
      → IsSound json log (append_all json log events lines)
  unfolding append_all
  all-IsSound [] lines s = s
  all-IsSound (e ∷ es) lines s =
      all-IsSound es (append json log e lines).1 (append-IsSound e lines s)

  -- Whatever appends were made on an empty log, its sequences go up, its identifiers are distinct, its
  -- events are of the log's run and epoch, and no line and no number of lines is past its bound.
  pub appends-IsSound :
      (events : List FleetEvent) → IsSound json log (append_all json log events [])
  appends-IsSound events = all-IsSound events [] (record {
    increasing = refl;
    distinct = refl;
    owned = refl;
    short = refl;
    few = ground arith;
  })

scan_self :
    (json : Json) (e : FleetEvent) (lines : Lines)
    → scan json e lines ≡ fresh
    → scan json e (lines ++ e ∷ []) ≡ repeated e
unfolding scan
scan_self json e [] h =
    ground (arith, eq_iff e.event_id e.event_id, eq_iff (json.canonical e) (json.canonical e))
scan_self json e (old ∷ rest) h = ground (arith, scan_self json e rest)

no-snoc : (e : FleetEvent) (lines : Lines) → lines ++ e ∷ [] ≡ lines → ⊥
no-snoc e lines h = omega (arith, ap length h, length-append lines (e ∷ []))

-- An append that wrote its event, made again on the log as it then is, gives the event back and
-- leaves the log, if the log can be read.
pub append_retry :
    (json : Json) (log : EventLog) (e : FleetEvent) (lines : Lines)
    → append json log e lines ≡ (some e, lines ++ e ∷ [])
    → records json (lines ++ e ∷ []) ≡ some (lines ++ e ∷ [])
    → append json log e (lines ++ e ∷ []) ≡ (some e, lines ++ e ∷ [])
unfolding append append_found
append_retry json log e lines h r = elim (append-cases json log e lines) [
  | inl same ↦ absurd (no-snoc e lines (sym (ap (λ c. c.1) h) ∙ same))
  | inr (w, g) ↦ rw (w.owned, r, scan_self json e lines w.found) refl
]
