-- ===== src/Scanner/Naming/Runs.antt =====
-- The theorems about `processHost` of LanDeviceScanner.kt for a device at 10.0.0.5.
use lan_scan.Base.{ℕ, ◌≡◌, refl, arith, Bool, true, false, some, List, [], ◌∷◌, ◌++◌}
use lan_scan.Resolver.Attempt.{value, io_exception, names}
use lan_scan.Resolver.Mdns.{resolve}
use lan_scan.Resolver.Mdns.Runs.{latin, latin-DecodesAscii, front, front-IsFront}
use lan_scan.Scanner.Host.{new_host}
use lan_scan.Scanner.Naming.{Answers, process_host}
use lan_scan.Scanner.Naming.Laws.{
  with_name, choice, verdict, process_host-choice, process_host-nameless,
}
use lan_scan.Text.Codes.{codes}

-- The empty text, as far as these runs ask.
abbrev is_empty : List ℕ → Bool
is_empty [] = true
is_empty (c ∷ cs) = false

-- No answer over mDNS, and a name over NetBIOS.
abbrev silent : Answers
silent = record {
  known = true;
  canonical = codes "10.0.0.5";
  is_blank = is_empty;
  mdns = some io_exception;
  netbios = some (value (names (some (codes "LIBRARY")) []));
}

process_host-choice_example :
    process_host silent (new_host (codes "10.0.0.5"))
    ≡ with_name (new_host (codes "10.0.0.5")) (
        choice
          (silent.canonical)
          (verdict is_empty (silent.mdns))
          (verdict is_empty (silent.netbios)))
process_host-choice_example =
    process_host-choice silent refl refl (new_host (codes "10.0.0.5")) (omega arith)

abbrev nameless : Answers
nameless = record silent { mdns = some (resolve latin 10 0 0 5 (some (front ++ (0 ∷ [])))) }

process_host-nameless_example :
    process_host nameless (new_host (codes "10.0.0.5"))
    ≡ with_name (new_host (codes "10.0.0.5")) (nameless.canonical)
process_host-nameless_example =
    process_host-nameless nameless refl refl latin latin-DecodesAscii 10 0 0 5 front []
      front-IsFront (omega arith) refl (new_host (codes "10.0.0.5")) (omega arith)
