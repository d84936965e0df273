-- ===== src/Redis/Info/Lines.antt =====
-- Lines that hold no carriage return are split where they were joined.
use mathlib.Core.List.{append-nil, append_assoc}
use redis_orchestrator.Base.{false, List, [], ◌∷◌, ◌++◌, ◌≡◌, refl, sym, ap, ◌∙◌, ◌==◌}
use redis_orchestrator.Base.Text.{Bytes}
use redis_orchestrator.Redis.Info.{split_lines}

-- `strings.Join(lines, "\r\n")`
abbrev pub join_lines : List Bytes → Bytes
join_lines [] = []
join_lines (l ∷ []) = l
join_lines (l ∷ m ∷ ls) = l ++ (b'\r' ∷ b'\n' ∷ join_lines (m ∷ ls))

abbrev pub NoReturn : Bytes → Type 0
NoReturn [] = Unit
NoReturn (c ∷ s) = ((c == b'\r') ≡ false) × NoReturn s

abbrev pub AllNoReturn : List Bytes → Type 0
AllNoReturn [] = Unit
AllNoReturn (l ∷ ls) = NoReturn l × AllNoReturn ls

split_last : (l cur : Bytes) → NoReturn l → split_lines cur l ≡ (cur ++ l) ∷ []
unfolding split_lines
split_last [] cur h = ap (λ (x : Bytes). x ∷ []) (sym (append-nil cur))
split_last (c ∷ []) cur h = refl
split_last (c ∷ d ∷ l) cur (hc, h) =
    rw (hc, split_lines) (split_last (d ∷ l) (cur ++ c ∷ []) h ∙ rw append_assoc)

split_at :
    (l s cur : Bytes)
    → NoReturn l
    → split_lines cur (l ++ (b'\r' ∷ b'\n' ∷ s)) ≡ (cur ++ l) ∷ split_lines [] s
unfolding split_lines
split_at [] s cur h = ap (λ (x : Bytes). x ∷ split_lines [] s) (sym (append-nil cur))
split_at (c ∷ []) s cur (hc, h) = rw (hc, split_lines) refl
split_at (c ∷ d ∷ l) s cur (hc, h) =
    rw (hc, split_lines) (split_at (d ∷ l) s (cur ++ c ∷ []) h ∙ rw append_assoc)

-- Splitting the joined lines gives the lines back.
pub split_lines-join_lines :
    (l : Bytes) (ls : List Bytes)
    → AllNoReturn (l ∷ ls)
    → split_lines [] (join_lines (l ∷ ls)) ≡ l ∷ ls
split_lines-join_lines l [] (h, _) = split_last l [] h
split_lines-join_lines l (m ∷ ls) (h, hs) =
    split_at l (join_lines (m ∷ ls)) [] h ∙ ap (◌∷◌ l) (split_lines-join_lines m ls hs)
