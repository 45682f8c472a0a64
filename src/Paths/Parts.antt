-- ===== src/Paths/Parts.antt =====
-- The parts of a rendered path between its slashes.
use umsftpd.Prelude.{
  ◌≡◌, refl, ap, ◌∙◌, List, [], ◌∷◌, ◌++◌, append_assoc, append-nil, Bytes, All, arith, sym, drop,
}
use umsftpd.Paths.{slash}
use umsftpd.Paths.Names.{Lacks, IsName, render, parts}

parts-name :
    (c begun r : Bytes) → Lacks c → parts begun (c ++ slash ∷ r) ≡ (begun ++ c) ∷ parts [] r
parts-name [] begun r h = rw append-nil
parts-name (b ∷ c) begun r h =
    ground (arith, parts-name c (begun ++ b ∷ []) r h.1, append_assoc begun (b ∷ []) c)

parts_last : (c begun : Bytes) → Lacks c → parts begun c ≡ (begun ++ c) ∷ []
parts_last [] begun h = rw append-nil
parts_last (b ∷ c) begun h =
    ground (arith, parts_last c (begun ++ b ∷ []) h.1, append_assoc begun (b ∷ []) c)

-- The parts of a rendered path are its names, whatever text follows behind a slash.
pub parts-render :
    (c : Bytes) (cs : List Bytes) → Lacks c → All IsName cs → parts [] (c ++ render cs) ≡ c ∷ cs
parts-render c [] h hs = rw append-nil (parts_last c [] h)
parts-render c (d ∷ cs) h hs =
    rw (parts-name c [] (d ++ render cs) h) (ap (λ t. c ∷ t) (parts-render d cs hs.0.1 hs.1))

pub parts-render_behind :
    (c : Bytes) (cs : List Bytes) (p : Bytes)
    → Lacks c
    → All IsName cs
    → parts [] (c ++ (render cs ++ slash ∷ p)) ≡ (c ∷ cs) ++ parts [] p
parts-render_behind c [] p h hs = parts-name c [] p h
parts-render_behind c (d ∷ cs) p h hs =
    parts-name c [] ((d ++ render cs) ++ slash ∷ p) h
    ∙ ap (λ t. c ∷ t)
        (ap (parts []) (append_assoc d (render cs) (slash ∷ p))
          ∙ parts-render_behind d cs p hs.0.1 hs.1)

-- The path of names determines them.
pub render-injective :
    (cs ds : List Bytes) → All IsName cs → All IsName ds → render cs ≡ render ds → cs ≡ ds
render-injective [] [] h k e = refl
render-injective [] (d ∷ ds) h k e = cc
render-injective (c ∷ cs) [] h k e = cc
render-injective (c ∷ cs) (d ∷ ds) h k e =
    sym (parts-render c cs h.0.1 h.1)
    ∙ ap (λ p. parts [] (drop 1 p)) e
    ∙ parts-render d ds k.0.1 k.1
