-- ===== src/Log/Console.antt =====
-- What `log_print` (kernel/logging/logger.c) leaves of the console.
use mike_os.Base.{
  ℕ, ◌≡◌, ◌≢◌, inl, inr, refl, ap, ◌∙◌, ◌&&◌, Option, some, List, [], ◌∷◌, arith, Bool-cases, leb,
  ◌==◌, Outcome, done,
}
use mike_os.Printf.Format.{print, print_loop}
use mike_os.Vga.{VgaState, set_terminal_color}
use mike_os.Vga.Cursor.{IsPlaced, IsStep, vga_putc-IsStep}
use mike_os.Log.{
  LogType, log_color, log_debug, log_error, log_info, log_prefix, log_print, log_warning, printf,
  put_all, then_print,
}

IsStep-same : (s : VgaState) (color : ℕ) → IsPlaced s → IsStep s (record s { color = color })
IsStep-same s color ok = record {
  placed = record { column = ok.column; row = ok.row; fits = ok.fits };
  buffer = refl;
  outside = λ a out. refl;
}

IsStep-trans : (s t u : VgaState) → IsStep s t → IsStep t u → IsStep s u
IsStep-trans s t u st tu = record {
  placed = tu.placed;
  buffer = tu.buffer ∙ st.buffer;
  outside = λ a out. let same = st.buffer in tu.outside a (rw same out) ∙ st.outside a out;
}

-- A text without carriage return and backspace.
abbrev pub IsPlain : List ℕ → Type 0
IsPlain [] = Unit
IsPlain (c ∷ text) = (c ≢ 13) × (c ≢ 8) × IsPlain text

put_all-IsStep :
    (text : List ℕ) (s : VgaState)
    → IsPlaced s
    → IsPlain text
    → (t : VgaState) × (put_all text s ≡ done t) × IsStep s t
unfolding put_all
put_all-IsStep [] s ok plain = (s, refl, IsStep-same s s.color ok)
put_all-IsStep (c ∷ text) s ok (not_return, not_backspace, plain) = elim (Bool-cases (c == 0)) [
  | inl ends ↦ rw (ends, put_all) (put_all-IsStep text s ok plain)
  | inr more ↦
      let (t, printed, step) = vga_putc-IsStep c s ok not_return not_backspace in
      let (u, printed', step') = put_all-IsStep text t step.placed plain in
      rw (more, put_all, printed) (u, printed', IsStep-trans s t u step step')
]

set_terminal_color-IsStep :
    (color : ℕ) (s : VgaState) → IsPlaced s → IsStep s (set_terminal_color color s)
unfolding set_terminal_color
set_terminal_color-IsStep color s ok = elim (Bool-cases (leb 1 color && leb color 15)) [
  | inl known ↦ rw (known, set_terminal_color) (IsStep-same s color ok)
  | inr other ↦ rw (other, set_terminal_color) (IsStep-same s s.color ok)
]

module _ (text_at : ℕ → List ℕ) where
  printf-IsStep :
      (format args : List ℕ) (out : List ℕ × ℕ) (s : VgaState)
      → IsPlaced s
      → print text_at format args ≡ some (done out)
      → IsPlain out.0
      → (t : VgaState) × (printf text_at format args s ≡ some (done t)) × IsStep s t
  unfolding printf
  printf-IsStep format args out s ok printed plain =
      let (t, shown, step) = put_all-IsStep out.0 s ok plain in
      (t, rw (printed, printf, shown) refl, step)

  log_prefix-prints :
      (log_type : LogType)
      → (out : List ℕ × ℕ) × (print text_at (log_prefix log_type) [] ≡ some (done out))
        × IsPlain out.0
  unfolding print print_loop log_prefix
  log_prefix-prints log_info = (_, refl, omega arith)
  log_prefix-prints log_warning = (_, refl, omega arith)
  log_prefix-prints log_error = (_, refl, omega arith)
  log_prefix-prints log_debug = (_, refl, omega arith)

  then_print-done :
      (next : VgaState → Option (Outcome VgaState)) {run result : Option (Outcome VgaState)}
      {t : VgaState}
      → run ≡ some (done t)
      → next t ≡ result
      → then_print text_at run next ≡ result
  then_print-done next ends follows = ap (λ r. then_print text_at r next) ends ∙ follows

  newline-prints : print text_at (10 ∷ []) [] ≡ some (done (10 ∷ [], 1))
  unfolding print print_loop
  newline-prints = refl

  -- On a console whose cursor and buffer are in bounds, and where the message prints without carriage
  -- return and backspace, `log_print` returns; it leaves the cursor in bounds, the memory outside the
  -- cells of the buffer as it was, and the default color.
  pub log_print-IsStep :
      (log_type : LogType) (format args : List ℕ) (out : List ℕ × ℕ) (s : VgaState)
      → IsPlaced s
      → print text_at format args ≡ some (done out)
      → IsPlain out.0
      → (t : VgaState) × (log_print text_at log_type format args s ≡ some (done t))
        × IsStep s t
        × (t.color ≡ 7)
  unfolding log_print set_terminal_color
  log_print-IsStep log_type format args out s ok printed plain =
      let s0 = set_terminal_color (log_color log_type) s in
      let step0 = set_terminal_color-IsStep (log_color log_type) s ok in
      let (prefix, prefix_prints, prefix_plain) = log_prefix-prints log_type in
      let (s1, ends1, step1) =
        printf-IsStep (log_prefix log_type) [] prefix s0 step0.placed prefix_prints prefix_plain in
      let (s2, ends2, step2) = printf-IsStep format args out s1 step1.placed printed plain in
      let (s3, ends3, step3) =
        printf-IsStep (10 ∷ []) [] (10 ∷ [], 1) s2 step2.placed newline-prints (omega arith) in
      let restored = λ (t : VgaState). some (done (set_terminal_color 7 t)) in
      let after_text =
        λ (t : VgaState). then_print text_at (printf text_at (10 ∷ []) [] t) restored in
      let after_prefix =
        λ (t : VgaState). then_print text_at (printf text_at format args t) after_text in
      let step4 = set_terminal_color-IsStep 7 s3 step3.placed in
      (
        set_terminal_color 7 s3,
        then_print-done after_prefix ends1
            (then_print-done after_text ends2 (then_print-done restored ends3 refl)),
        IsStep-trans s s0 _ step0 (
            IsStep-trans s0 s1 _ step1
              (IsStep-trans s1 s2 _ step2 (IsStep-trans s2 s3 _ step3 step4))),
        refl,
      )
