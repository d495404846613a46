-- ===== src/Resolver/NetBios/Runs.antt =====
-- The theorem about NetBIOSResolver.kt for a response with three names.
use lan_scan.Base.{ℕ, ◌≡◌, refl, arith, some, List, [], ◌∷◌, ◌++◌, replicate}
use lan_scan.Resolver.Attempt.{value, names, received_into, received_length}
use lan_scan.Resolver.NetBios.{resolve}
use lan_scan.Resolver.NetBios.Answers.{Reply, resolve-Reply}
use lan_scan.Text.Codes.{codes}

-- A computer, its group and its user.
abbrev three_names : List ℕ
three_names =
    replicate 47 0
    ++ ((33 ∷ replicate 8 0)
        ++ ((3 ∷ codes "LIBRARY        ")
            ++ (0x20 ∷ 0x04 ∷ 0 ∷ codes "WORKGROUP      ")
            ++ (0x00 ∷ 0x84 ∷ 0 ∷ codes "CHEN           ")
            ++ (0x03 ∷ 0x04 ∷ 0 ∷ 0x00 ∷ 0x11 ∷ 0x22 ∷ 0x9A ∷ 0xBC ∷ 0xDE ∷ [])))

names_of_three :
    resolve (λ bytes. bytes) (some three_names)
    ≡ value (
        names
          (some (codes "LIBRARY"))
          (some (codes "CHEN") ∷ some (codes "WORKGROUP") ∷ some (codes "00-11-22-9A-BC-DE") ∷ []))
unfolding resolve received_into
names_of_three = refl

resolve-Reply_example :
    Reply
      (λ bytes. bytes)
      (received_into 1024 three_names)
      (received_length 1024 three_names)
      (resolve (λ bytes. bytes) (some three_names))
resolve-Reply_example = resolve-Reply (λ bytes. bytes) three_names (ground arith)
