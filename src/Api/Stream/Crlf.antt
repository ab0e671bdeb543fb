-- ===== src/Api/Stream/Crlf.antt =====
-- Streams whose lines end in CR LF, which the format of server-sent events allows.
use llm_router_ui.Prelude.{◌≡◌, Bool, true, [], ◌∷◌, ◌==◌}
use llm_router_ui.Text.{Text}

-- every line feed stands behind a carriage return; the flag says whether one was just read
abbrev pub HasCrlfLines : Bool → Text → Type 0
HasCrlfLines after_cr [] = Unit
HasCrlfLines after_cr (c ∷ s) = ((c ≡ 10) → after_cr ≡ true) × HasCrlfLines (c == 13) s
