-- ===== src/Alerting/Spacing.antt =====
-- internal/alerting/ntfy.go: how far apart the DOWN alerts of one monitor are.
use whatsupp.Base.{
  ℕ, ℤ, ◌+◌, ◌≤◌, ◌≡◌, ◌≢◌, refl, String, Bool, true, false, List, [], ◌∷◌, Option, none, some,
  arith, str_eq, eq_iff, if◌then◌else◌, Map, pos, pos_part, neg_part,
}
use whatsupp.Alerting.{
  Alert, Cause, DurationText, NtfyClient, new_ntfy_client, set_muted, is_muted, mute, unmute,
  is_recent, send_down, send_recovery, send_ssl_expiry,
}

-- The calls that other goroutines make, in any order.
pub data Call : Type 0 where
  down_at : ℕ → String → Cause → Call
  recovers : String → DurationText → Call
  mutes unmutes : String → Call
  replaces : Map Bool → Call

pub data Entry : Type 0 where
  alerted : String → ℕ → Entry
  recovered : String → Entry

abbrev noted : Option Alert → Entry → List Entry → List Entry
noted none e log = log
noted (some a) e log = e ∷ log

-- The client after a call, and the log of posted DOWN alerts and of recoveries, newest first.
abbrev pub step : NtfyClient × List Entry → Call → NtfyClient × List Entry
step (n, log) (down_at now monitor cause) =
    let (n', posted) = send_down n now monitor cause in (n', noted posted (alerted monitor now) log)
step (n, log) (recovers monitor duration) =
    ((send_recovery n monitor duration).0, recovered monitor ∷ log)
step (n, log) (mutes name) = (mute n name, log)
step (n, log) (unmutes name) = (unmute n name, log)
step (n, log) (replaces muted) = (set_muted n muted, log)

abbrev pub run : NtfyClient × List Entry → List Call → NtfyClient × List Entry
run s [] = s
run s (c ∷ cs) = run (step s c) cs

-- When the last DOWN alert of a monitor was posted, if there was none but since its recovery.
abbrev pub previous : String → List Entry → Option ℕ
previous m [] = none
previous m (alerted j t ∷ log) = let rest = previous m log in if str_eq j m then some t else rest
previous m (recovered j ∷ log) = let rest = previous m log in if str_eq j m then none else rest

abbrev pub Apart : ℤ → Option ℕ → ℕ → Type 0
Apart interval none t = Unit
Apart interval (some before) t = before + pos_part interval ≤ t + neg_part interval

abbrev pub Spaced : ℤ → List Entry → Type 0
Spaced interval [] = Unit
Spaced interval (alerted m t ∷ log) = Apart interval (previous m log) t × Spaced interval log
Spaced interval (recovered m ∷ log) = Spaced interval log

record Inv (interval : ℤ) (s : NtfyClient × List Entry) : Type 0 where
  interval_kept : s.0.reminder_interval ≡ interval
  last : (m : String) → s.0.last_down_alert m ≡ previous m s.1
  spaced : Spaced interval s.1

is_recent-Apart :
    (o : Option ℕ) (now : ℕ) (interval : ℤ)
    → is_recent o now interval ≡ false
    → Apart interval o now
unfolding is_recent
is_recent-Apart none now interval h = tt
is_recent-Apart (some t) now interval h = ground arith

down_at-Inv :
    (interval : ℤ) (n : NtfyClient) (log : List Entry) (now : ℕ) (m : String) (cause : Cause)
    → Inv interval (n, log)
    → Inv interval (step (n, log) (down_at now m cause))
unfolding send_down
down_at-Inv interval n log now m cause v = record {
  interval_kept = ground (arith, v.interval_kept);
  last = λ j. ground (arith, v.last j, eq_iff m j);
  spaced = ground (
    arith,
    v.last m,
    v.spaced,
    v.interval_kept,
    is_recent-Apart (n.last_down_alert m) now interval,
  );
}

recovers-Inv :
    (interval : ℤ) (n : NtfyClient) (log : List Entry) (m : String) (duration : DurationText)
    → Inv interval (n, log)
    → Inv interval (step (n, log) (recovers m duration))
unfolding send_recovery
recovers-Inv interval n log m duration v = record {
  interval_kept = v.interval_kept;
  last = λ j. ground (arith, v.last j, eq_iff m j);
  spaced = v.spaced;
}

step-Inv :
    (interval : ℤ) (s : NtfyClient × List Entry) (c : Call)
    → Inv interval s
    → Inv interval (step s c)
unfolding mute unmute set_muted
step-Inv interval (n, log) (down_at now m cause) v = down_at-Inv interval n log now m cause v
step-Inv interval (n, log) (recovers m duration) v = recovers-Inv interval n log m duration v
step-Inv interval (n, log) (mutes name) v = record {
  interval_kept = v.interval_kept;
  last = v.last;
  spaced = v.spaced;
}
step-Inv interval (n, log) (unmutes name) v = record {
  interval_kept = v.interval_kept;
  last = v.last;
  spaced = v.spaced;
}
step-Inv interval (n, log) (replaces muted) v = record {
  interval_kept = v.interval_kept;
  last = v.last;
  spaced = v.spaced;
}

run-Inv :
    (interval : ℤ) (s : NtfyClient × List Entry) (cs : List Call)
    → Inv interval s
    → Inv interval (run s cs)
run-Inv interval s [] v = v
run-Inv interval s (c ∷ cs) v = run-Inv interval (step s c) cs (step-Inv interval s c v)

-- Whatever calls a new client with a non-zero reminder interval gets, a DOWN alert of a monitor is
-- posted at least that interval after the one before it, unless the monitor recovered in between.
pub run-Spaced :
    (interval : ℤ) (cs : List Call)
    → interval ≢ pos 0
    → Spaced interval (run (new_ntfy_client interval, []) cs).1
run-Spaced interval cs h = (run-Inv interval (new_ntfy_client interval, []) cs start).spaced
  where
    start : Inv interval (new_ntfy_client interval, [])
    start =
        unfold new_ntfy_client in
        record { interval_kept = ground (arith, h); last = λ m. refl; spaced = tt }

-- While a name is muted, no DOWN, recovery or certificate alert is posted for it, a DOWN alert is not
-- counted as posted, and a recovery still ends the interval of the last one.
pub muted_posts_nothing :
    (n : NtfyClient) (now : ℕ) (days : ℤ) (name : String) (cause : Cause) (duration : DurationText)
    → is_muted n name ≡ true
    → (send_down n now name cause ≡ (n, none))
      × ((send_recovery n name duration).1 ≡ none)
      × ((send_recovery n name duration).0.last_down_alert name ≡ none)
      × (send_ssl_expiry n name days ≡ none)
unfolding send_down send_recovery send_ssl_expiry
muted_posts_nothing n now days name cause duration h = ground (arith, eq_iff name name)
