-- ===== src/Adapter/KbIds/Joystick.antt =====
-- The keys and mouse buttons that a default mapping uses, and the letters (main/adapter/adapter.h).
use blue_retro_forever.Prelude.{ℕ}

abbrev pub kb_a : ℕ
kb_a = 0

abbrev pub kb_d : ℕ
kb_d = 1

abbrev pub kb_s : ℕ
kb_s = 2

abbrev pub kb_w : ℕ
kb_w = 3

abbrev pub mouse_x_left : ℕ
mouse_x_left = 4

abbrev pub mouse_x_right : ℕ
mouse_x_right = 5

abbrev pub mouse_y_down : ℕ
mouse_y_down = 6

abbrev pub mouse_y_up : ℕ
mouse_y_up = 7

abbrev pub kb_left : ℕ
kb_left = 8

abbrev pub kb_right : ℕ
kb_right = 9

abbrev pub kb_down : ℕ
kb_down = 10

abbrev pub kb_up : ℕ
kb_up = 11

abbrev pub kb_q : ℕ
kb_q = 16

abbrev pub mouse_4 : ℕ
mouse_4 = 16

abbrev pub kb_r : ℕ
kb_r = 17

abbrev pub kb_e : ℕ
kb_e = 18

abbrev pub kb_f : ℕ
kb_f = 19

abbrev pub kb_esc : ℕ
kb_esc = 20

abbrev pub kb_enter : ℕ
kb_enter = 21

abbrev pub kb_lwin : ℕ
kb_lwin = 22

abbrev pub kb_hash : ℕ
kb_hash = 23

abbrev pub mouse_right : ℕ
mouse_right = 24

abbrev pub kb_z : ℕ
kb_z = 25

abbrev pub kb_lctrl : ℕ
kb_lctrl = 26

abbrev pub mouse_middle : ℕ
mouse_middle = 27

abbrev pub mouse_left : ℕ
mouse_left = 28

abbrev pub kb_x : ℕ
kb_x = 29

abbrev pub mouse_8 : ℕ
mouse_8 = 29

abbrev pub kb_lshift : ℕ
kb_lshift = 30

abbrev pub kb_space : ℕ
kb_space = 31

abbrev pub kb_b : ℕ
kb_b = 32

abbrev pub kb_c : ℕ
kb_c = 33

abbrev pub kb_g : ℕ
kb_g = 34

abbrev pub kb_h : ℕ
kb_h = 35

abbrev pub kb_i : ℕ
kb_i = 36

abbrev pub kb_j : ℕ
kb_j = 37

abbrev pub kb_k : ℕ
kb_k = 38

abbrev pub kb_l : ℕ
kb_l = 39

abbrev pub kb_m : ℕ
kb_m = 40

abbrev pub kb_n : ℕ
kb_n = 41

abbrev pub kb_o : ℕ
kb_o = 42

abbrev pub kb_p : ℕ
kb_p = 43

abbrev pub kb_t : ℕ
kb_t = 44

abbrev pub kb_u : ℕ
kb_u = 45

abbrev pub kb_v : ℕ
kb_v = 46

abbrev pub kb_y : ℕ
kb_y = 47

abbrev pub kb_1 : ℕ
kb_1 = 48

abbrev pub kb_2 : ℕ
kb_2 = 49

abbrev pub kb_3 : ℕ
kb_3 = 50

abbrev pub kb_4 : ℕ
kb_4 = 51

abbrev pub kb_5 : ℕ
kb_5 = 52

abbrev pub kb_6 : ℕ
kb_6 = 53

abbrev pub kb_7 : ℕ
kb_7 = 54

abbrev pub kb_8 : ℕ
kb_8 = 55

abbrev pub kb_9 : ℕ
kb_9 = 56

abbrev pub kb_0 : ℕ
kb_0 = 57
