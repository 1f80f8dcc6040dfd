-- ===== src/ControlLines/Escapes.antt =====
-- The escapes of crates/et-htm/src/framing.rs, and a reader of them.
use et_rs.Prelude.{◌==◌, if◌then◌else◌, ℕ, ◌+◌, ◌-◌, ◌*◌, List, [], ◌∷◌}

-- tmux's own reading: three octal digits behind a backslash.
abbrev pub unescape : List ℕ → List ℕ
unescape [] = []
unescape (b ∷ []) = b ∷ []
unescape (b ∷ c ∷ []) = b ∷ c ∷ []
unescape (b ∷ c ∷ d ∷ []) = b ∷ c ∷ d ∷ []
unescape (b ∷ c ∷ d ∷ e ∷ rest) =
    let plain = b ∷ unescape (c ∷ d ∷ e ∷ rest) in
    let octal = ((c - b'0') * 64 + (d - b'0') * 8 + (e - b'0')) ∷ unescape rest in
    if b == b'\\' then octal else plain
