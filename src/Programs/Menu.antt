-- ===== src/Programs/Menu.antt =====
-- client_main.cpp and server_main.cpp: the numbers of the menu.
use reliable_data_transfer.Base.{
  ℕ, zero, suc, some, ◌≡◌, ◌↔◌, refl, ap, ◌∙◌, subst, arith, some_inj,
}
use reliable_data_transfer.Workers.{
  ProtoType, wait_and_stop, selective_repeat, go_back_n, selective_repeat_cc, obtain_type,
}
use reliable_data_transfer.Programs.{choose_protocol}

-- The lines of the menu that both programs print.
abbrev pub menu : ProtoType → ℕ
menu wait_and_stop = 1
menu selective_repeat = 2
menu go_back_n = 3
menu selective_repeat_cc = 4

pub choose_protocol-menu : (type : ProtoType) → choose_protocol (menu type) ≡ some type
unfolding choose_protocol obtain_type
choose_protocol-menu wait_and_stop = refl
choose_protocol-menu selective_repeat = refl
choose_protocol-menu go_back_n = refl
choose_protocol-menu selective_repeat_cc = refl

menu-choose_protocol : (id : ℕ) (type : ProtoType) → choose_protocol id ≡ some type → id ≡ menu type
unfolding choose_protocol obtain_type
menu-choose_protocol zero type e = absurd cc
menu-choose_protocol (suc zero) type e = subst (λ t. 1 ≡ menu t) (some_inj e) refl
menu-choose_protocol (suc (suc zero)) type e = subst (λ t. 2 ≡ menu t) (some_inj e) refl
menu-choose_protocol (suc (suc (suc zero))) type e = subst (λ t. 3 ≡ menu t) (some_inj e) refl
menu-choose_protocol (suc (suc (suc (suc zero)))) type e = subst (λ t. 4 ≡ menu t) (some_inj e) refl
menu-choose_protocol (suc (suc (suc (suc (suc n))))) type e = absurd (ground arith)

-- The main programs accept the number of each line of the menu and no other number, and choose the
-- type that the line names.
pub choose_protocol_iff :
    (id : ℕ) (type : ProtoType) → (choose_protocol id ≡ some type) ↔ (id ≡ menu type)
unfolding choose_protocol obtain_type
choose_protocol_iff id type =
    (menu-choose_protocol id type, λ e. ap choose_protocol e ∙ choose_protocol-menu type)
