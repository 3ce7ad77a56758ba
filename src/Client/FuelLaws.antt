-- ===== src/Client/FuelLaws.antt =====
-- That the menus of client/main.c have nothing to do with more fuel than their input has bytes.
use linux_veda_4sensor_tcp_c.Prelude.{
  ℕ, zero, suc, ◌≤◌, ◌<◌, ◌≡◌, refl, ap, ◌⊎◌, inl, inr, ℤ, pos, negsuc, ◌==ℤ◌, Bool, true, false,
  if◌then◌else◌, Bool-cases, Option, none, some, List, [], ◌∷◌, length, arith,
}
use linux_veda_4sensor_tcp_c.Client.Console.{
  Session, Print, print, main_menu, brightness_menu, led_menu, buzzer_menu, segment_menu,
  status_menu, take_line, read_choice_from, read_choice,
}
use linux_veda_4sensor_tcp_c.Client.Menus.{
  submenu, choose_brightness, led_choice, buzzer_choice, segment_choice, status_choice, main_choice,
  main_loop, and_then,
}
use linux_veda_4sensor_tcp_c.Client.MenuLaws.{submenu_at_end, read_choice_at_end}

take_line_shorter : (k : ℕ) (bs : List ℕ) → length (take_line k bs).1 ≤ length bs
unfolding take_line
take_line_shorter zero bs = omega arith
take_line_shorter (suc k) [] = omega arith
take_line_shorter (suc k) (b ∷ bs) = ground (arith, take_line_shorter k bs)

take_line_reads : (k b : ℕ) (bs : List ℕ) → length (take_line (suc k) (b ∷ bs)).1 ≤ length bs
unfolding take_line
take_line_reads k b bs = ground (arith, take_line_shorter k bs)

-- A choice is read off at least a byte, if there is one.
pub read_choice_shorter : (s : Session) → length (read_choice s).1.input ≤ length s.input
unfolding read_choice read_choice_from
read_choice_shorter s = go s.input
  where
    go : (bs : List ℕ) → length (read_choice_from bs).1 ≤ length bs
    go [] = omega arith
    go (b ∷ bs) = omega (arith, take_line_reads 14 b bs)

pub read_choice_reads :
    (s : Session) → (s.input ≡ []) ⊎ (length (read_choice s).1.input < length s.input)
unfolding read_choice read_choice_from
read_choice_reads s = go s.input
  where
    go : (bs : List ℕ) → (bs ≡ []) ⊎ (length (read_choice_from bs).1 < length bs)
    go [] = inl refl
    go (b ∷ bs) = inr (omega (arith, take_line_reads 14 b bs))

-- What a choice in a submenu does leaves no more to read.
pub record IsChoice (act : ℤ → Session → Session) : Type 0 where
  pub shorter : (c : ℤ) (s : Session) → length (act c s).input ≤ length s.input
  pub at_end : (s : Session) → (act (negsuc 0) s).input ≡ s.input

choose_brightness_shorter : (s : Session) → length (choose_brightness s).input ≤ length s.input
unfolding choose_brightness
choose_brightness_shorter s =
    let (b, s₁) = read_choice (print brightness_menu s) in
    let less : length s₁.input ≤ length s.input = read_choice_shorter (print brightness_menu s) in
    elim (Bool-cases (b ==ℤ pos 1)) [
      | inl low ↦ rw low less
      | inr a ↦ rw a (elim (Bool-cases (b ==ℤ pos 2)) [
        | inl mid ↦ rw mid less
        | inr c ↦ rw c (elim (Bool-cases (b ==ℤ pos 3)) [
          | inl high ↦ rw high less
          | inr d ↦
              rw d (elim (Bool-cases (b ==ℤ pos 0)) [ inl back ↦ rw back less | inr e ↦ rw e less ])
        ])
      ])
    ]

pub led_choice-IsChoice : IsChoice led_choice
unfolding led_choice
led_choice-IsChoice = record {
  shorter = λ c s. ground (arith, choose_brightness_shorter s);
  at_end = λ s. refl;
}

pub buzzer_choice-IsChoice : IsChoice buzzer_choice
unfolding buzzer_choice
buzzer_choice-IsChoice = record { shorter = λ c s. ground arith; at_end = λ s. refl }

segment_choice_shorter : (c : ℤ) (s : Session) → length (segment_choice c s).input ≤ length s.input
unfolding segment_choice
segment_choice_shorter (negsuc n) s = omega arith
segment_choice_shorter (pos n) s = ground arith

pub segment_choice-IsChoice : IsChoice segment_choice
unfolding segment_choice
segment_choice-IsChoice = record { shorter = segment_choice_shorter; at_end = λ s. refl }

pub status_choice-IsChoice : IsChoice status_choice
unfolding status_choice
status_choice-IsChoice = record { shorter = λ c s. ground arith; at_end = λ s. refl }

-- Two runs, of which the first may have run out of fuel.
abbrev Agrees : Option Session → Option Session → Type 0
Agrees r t = (r ≡ none) ⊎ (r ≡ t)

if-Agrees :
    {r t x y : Option Session} (b : Bool)
    → Agrees r t
    → Agrees x y
    → Agrees (if b then r else x) (if b then t else y)
if-Agrees true a b = a
if-Agrees false a b = b

module _ (menu : Print) (act : ℤ → Session → Session) (choice : IsChoice act) where
  submenu_shorter :
      (fuel : ℕ) (s t : Session)
      → submenu menu act fuel s ≡ some t
      → length t.input ≤ length s.input
  unfolding submenu
  submenu_shorter zero s t e = cc
  submenu_shorter (suc fuel) s t e =
      let (c, s₁) = read_choice (print menu s) in
      let less = read_choice_shorter (print menu s) in
      elim (Bool-cases (c ==ℤ pos 0)) [
        | inl back ↦ ground (arith, back, less)
        | inr on ↦
            omega (arith, less, choice.shorter c s₁, submenu_shorter fuel (act c s₁) t (rw on at e))
      ]

  submenu-Agrees :
      (fuel enough : ℕ) (s : Session)
      → length s.input < enough
      → Agrees (submenu menu act fuel s) (submenu menu act enough s)
  unfolding submenu
  submenu-Agrees zero enough s h = inl refl
  submenu-Agrees (suc fuel) zero s h = absurd (omega (arith, h))
  submenu-Agrees (suc fuel) (suc enough) s h = elim (read_choice_reads (print menu s)) [
    | inl end ↦ inl (submenu_at_end menu act choice.at_end (suc fuel) s end)
    | inr less ↦
        let (c, s₁) = read_choice (print menu s) in
        elim (Bool-cases (c ==ℤ pos 0)) [
          | inl back ↦ inr (rw back refl)
          | inr on ↦
              rw on (
                submenu-Agrees fuel enough (act c s₁) (omega (arith, less, h, choice.shorter c s₁)))
        ]
  ]

-- The cases of the `switch` of `main`: four submenus, and what needs no fuel.
main_choice-Agrees :
    (fuel enough : ℕ) (c : ℤ) (s : Session)
    → length s.input < enough
    → Agrees (main_choice fuel c s) (main_choice enough c s)
unfolding main_choice
main_choice-Agrees fuel enough c s h =
    if-Agrees (c ==ℤ pos 1) (submenu-Agrees led_menu led_choice led_choice-IsChoice fuel enough s h)
      (if-Agrees (c ==ℤ pos 2)
        (submenu-Agrees buzzer_menu buzzer_choice buzzer_choice-IsChoice fuel enough s h)
        (if-Agrees (c ==ℤ pos 3)
          (submenu-Agrees segment_menu segment_choice segment_choice-IsChoice fuel enough s h)
          (if-Agrees (c ==ℤ pos 4)
            (submenu-Agrees status_menu status_choice status_choice-IsChoice fuel enough s h)
            (inr refl))))

pub main_choice_shorter :
    (fuel : ℕ) (c : ℤ) (s t : Session)
    → main_choice fuel c s ≡ some t
    → length t.input ≤ length s.input
unfolding main_choice
main_choice_shorter fuel c s t e = ground (
  arith,
  submenu_shorter led_menu led_choice led_choice-IsChoice fuel s t,
  submenu_shorter buzzer_menu buzzer_choice buzzer_choice-IsChoice fuel s t,
  submenu_shorter segment_menu segment_choice segment_choice-IsChoice fuel s t,
  submenu_shorter status_menu status_choice status_choice-IsChoice fuel s t,
)

and_then-Agrees :
    (o p : Option Session) (j k : Session → Option Session)
    → Agrees o p
    → ((u : Session) → p ≡ some u → Agrees (j u) (k u))
    → Agrees (and_then o j) (and_then p k)
and_then-Agrees o p j k (inl stopped) next = inl (ap (λ q. and_then q j) stopped)
and_then-Agrees o none j k (inr same) next = inl (ap (λ q. and_then q j) same)
and_then-Agrees o (some u) j k (inr same) next = rw same (next u refl)

main_loop-Agrees :
    (fuel enough : ℕ) (s : Session)
    → length s.input < enough
    → Agrees (main_loop fuel s) (main_loop enough s)
unfolding main_loop
main_loop-Agrees zero enough s h = inl refl
main_loop-Agrees (suc fuel) zero s h = absurd (omega (arith, h))
main_loop-Agrees (suc fuel) (suc enough) s h = elim (read_choice_reads (print main_menu s)) [
  | inl end ↦ inr (rw (read_choice_at_end (print main_menu s) end) refl)
  | inr less ↦
      let (c, s₁) = read_choice (print main_menu s) in
      if-Agrees (c ==ℤ pos 0) (inr refl) (
        if-Agrees (c ==ℤ negsuc 0) (inr refl) (
          and_then-Agrees (main_choice fuel c s₁) (main_choice enough c s₁) (main_loop fuel)
            (main_loop enough) (main_choice-Agrees fuel enough c s₁ (omega (arith, less, h)))
            (λ u e.
              main_loop-Agrees fuel enough u
                (omega (arith, less, h, main_choice_shorter enough c s₁ u e)))))
]

-- However much fuel it gets, the main loop ends as it does on as much fuel as its input has bytes
-- and one, or it does not end: if it has not ended by then, it never ends.
pub main_loop-enough :
    (fuel : ℕ) (s : Session)
    → (main_loop fuel s ≡ none) ⊎ (main_loop fuel s ≡ main_loop (suc (length s.input)) s)
main_loop-enough fuel s = main_loop-Agrees fuel (suc (length s.input)) s (omega arith)
