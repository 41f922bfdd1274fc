-- ===== src/Tests/LogFile.antt =====
-- A log file format that prints one log, as its name: what the laws of `Ron` ask of a format.
use text.Mathlib.Text.{◌==◌ as str_eq}
use text.Mathlib.TextEquality.{eq_iff}
use native.Mathlib.Decide.{ℕ_discrete}
use rr_channel.Prelude.{String, ◌≡◌, refl, sym, ap, Option, none, some, Bool-cases, inl, inr, arith}
use rr_channel.Prelude.Map.{get}
use rr_channel.DetThread.Id.{id_eq}
use rr_channel.RecordLog.{Entries, Ron}

String-discrete : Discrete String
String-discrete s t = elim (Bool-cases (str_eq s t)) [
  | inl h ↦ yes ((eq_iff s t).0 h)
  | inr h ↦ no (λ p. ground (arith, (eq_iff s t).1 p))
]

Entries-discrete : Discrete Entries
Entries-discrete = hlevel (ℕ_discrete, String-discrete)

print_if : {A : Type 0} → Dec A → Option String
print_if (yes _) = some "the log"
print_if (no _) = none

print_if-some : {A : Type 0} {s : String} (d : Dec A) → print_if d ≡ some s → A
unfolding print_if
print_if-some (yes a) h = a
print_if-some (no _) h = cc h

unfoldable pub ron_of : Entries → Ron
unfolding print_if print_if-some Entries-discrete String-discrete
ron_of log = record {
  to_string = λ hm. print_if (Entries-discrete hm log);
  from_str = λ _. some log;
  from_str-to_string = λ hm s h.
      (log, refl, λ id. ap (λ m. get m id) (sym (print_if-some (Entries-discrete hm log) h)));
}

print_if-yes : {A : Type 0} (d : Dec A) → A → print_if d ≡ some "the log"
unfolding print_if
print_if-yes (yes _) a = refl
print_if-yes (no n) a = absurd (n a)

pub to_string_lem : (log : Entries) → (ron_of log).to_string log ≡ some "the log"
unfolding ron_of
to_string_lem log = print_if-yes (Entries-discrete log log) refl
