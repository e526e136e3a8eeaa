-- ===== src/Adapter/KbIds/Keyboard.antt =====
-- The other keys of a keyboard among the enumerators of main/adapter/adapter.h.
use blue_retro_forever.Prelude.{ℕ}

abbrev pub kb_backspace : ℕ
kb_backspace = 58

abbrev pub kb_tab : ℕ
kb_tab = 59

abbrev pub kb_minus : ℕ
kb_minus = 60

abbrev pub kb_equal : ℕ
kb_equal = 61

abbrev pub kb_leftbrace : ℕ
kb_leftbrace = 62

abbrev pub kb_rightbrace : ℕ
kb_rightbrace = 63

abbrev pub kb_backslash : ℕ
kb_backslash = 64

abbrev pub kb_semicolon : ℕ
kb_semicolon = 65

abbrev pub kb_apostrophe : ℕ
kb_apostrophe = 66

abbrev pub kb_grave : ℕ
kb_grave = 67

abbrev pub kb_comma : ℕ
kb_comma = 68

abbrev pub kb_dot : ℕ
kb_dot = 69

abbrev pub kb_slash : ℕ
kb_slash = 70

abbrev pub kb_capslock : ℕ
kb_capslock = 71

abbrev pub kb_f1 : ℕ
kb_f1 = 72

abbrev pub kb_f2 : ℕ
kb_f2 = 73

abbrev pub kb_f3 : ℕ
kb_f3 = 74

abbrev pub kb_f4 : ℕ
kb_f4 = 75

abbrev pub kb_f5 : ℕ
kb_f5 = 76

abbrev pub kb_f6 : ℕ
kb_f6 = 77

abbrev pub kb_f7 : ℕ
kb_f7 = 78

abbrev pub kb_f8 : ℕ
kb_f8 = 79

abbrev pub kb_f9 : ℕ
kb_f9 = 80

abbrev pub kb_f10 : ℕ
kb_f10 = 81

abbrev pub kb_f11 : ℕ
kb_f11 = 82

abbrev pub kb_f12 : ℕ
kb_f12 = 83

abbrev pub kb_pscreen : ℕ
kb_pscreen = 84

abbrev pub kb_scroll : ℕ
kb_scroll = 85

abbrev pub kb_pause : ℕ
kb_pause = 86

abbrev pub kb_insert : ℕ
kb_insert = 87

abbrev pub kb_home : ℕ
kb_home = 88

abbrev pub kb_pageup : ℕ
kb_pageup = 89

abbrev pub kb_del : ℕ
kb_del = 90

abbrev pub kb_end : ℕ
kb_end = 91

abbrev pub kb_pagedown : ℕ
kb_pagedown = 92

abbrev pub kb_numlock : ℕ
kb_numlock = 93

abbrev pub kb_kp_div : ℕ
kb_kp_div = 94

abbrev pub kb_kp_multi : ℕ
kb_kp_multi = 95

abbrev pub kb_kp_minus : ℕ
kb_kp_minus = 96

abbrev pub kb_kp_plus : ℕ
kb_kp_plus = 97

abbrev pub kb_kp_enter : ℕ
kb_kp_enter = 98

abbrev pub kb_kp_1 : ℕ
kb_kp_1 = 99

abbrev pub kb_kp_2 : ℕ
kb_kp_2 = 100

abbrev pub kb_kp_3 : ℕ
kb_kp_3 = 101

abbrev pub kb_kp_4 : ℕ
kb_kp_4 = 102

abbrev pub kb_kp_5 : ℕ
kb_kp_5 = 103

abbrev pub kb_kp_6 : ℕ
kb_kp_6 = 104

abbrev pub kb_kp_7 : ℕ
kb_kp_7 = 105

abbrev pub kb_kp_8 : ℕ
kb_kp_8 = 106

abbrev pub kb_kp_9 : ℕ
kb_kp_9 = 107

abbrev pub kb_kp_0 : ℕ
kb_kp_0 = 108

abbrev pub kb_kp_dot : ℕ
kb_kp_dot = 109

abbrev pub kb_lalt : ℕ
kb_lalt = 110

abbrev pub kb_rctrl : ℕ
kb_rctrl = 111

abbrev pub kb_rshift : ℕ
kb_rshift = 112

abbrev pub kb_ralt : ℕ
kb_ralt = 113

abbrev pub kb_rwin : ℕ
kb_rwin = 114
