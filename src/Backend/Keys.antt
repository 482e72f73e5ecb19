-- ===== src/Backend/Keys.antt =====
-- The keys of the uinput backend: ckey_to_linux_keycode and the keys that input_linux_init enables
-- (server/src/input/backend/linux_uinput.c). A CKey is its position in the enumeration of
-- server/rs/src/c.rs, a KEY_* its number in linux/input-event-codes.h.
use mouse_hero.Base.{ℕ, Option, none, some, List, [], ◌∷◌, ◌==◌, if◌then◌else◌}
use mouse_hero.Input.{CKey}

-- One group of cases of the switch, and what stands behind it.
abbrev pub cases : List (CKey × ℕ) → CKey → Option ℕ → Option ℕ
cases [] key otherwise = otherwise
cases ((k, code) ∷ more) key otherwise =
    let rest = cases more key otherwise in if key == k then some code else rest

abbrev digit_keys : List (CKey × ℕ)
digit_keys =
    (0, 11) ∷ (1, 2) ∷ (2, 3) ∷ (3, 4) ∷ (4, 5) ∷ (5, 6) ∷ (6, 7) ∷ (7, 8) ∷ (8, 9) ∷ (9, 10) ∷ []

abbrev letter_keys : List (CKey × ℕ)
letter_keys =
    (10, 30)
    ∷ (11, 48)
    ∷ (12, 46)
    ∷ (13, 32)
    ∷ (14, 18)
    ∷ (15, 33)
    ∷ (16, 34)
    ∷ (17, 35)
    ∷ (18, 23)
    ∷ (19, 36)
    ∷ (20, 37)
    ∷ (21, 38)
    ∷ (22, 50)
    ∷ (23, 49)
    ∷ (24, 24)
    ∷ (25, 25)
    ∷ (26, 16)
    ∷ (27, 19)
    ∷ (28, 31)
    ∷ (29, 20)
    ∷ (30, 22)
    ∷ (31, 47)
    ∷ (32, 17)
    ∷ (33, 45)
    ∷ (34, 21)
    ∷ (35, 44)
    ∷ []

abbrev left_modifiers : List (CKey × ℕ)
left_modifiers =
    (40, 56)
    ∷ (177, 56)
    ∷ (61, 29)
    ∷ (174, 29)
    ∷ (272, 42)
    ∷ (178, 42)
    ∷ (187, 125)
    ∷ (179, 125)
    ∷ (58, 125)
    ∷ []

abbrev right_modifiers : List (CKey × ℕ)
right_modifiers =
    (263, 100) ∷ (259, 97) ∷ (265, 54) ∷ (266, 126) ∷ (258, 126) ∷ (264, 126) ∷ (247, 56) ∷ []

abbrev function_keys : List (CKey × ℕ)
function_keys =
    (88, 59)
    ∷ (89, 60)
    ∷ (90, 61)
    ∷ (91, 62)
    ∷ (92, 63)
    ∷ (93, 64)
    ∷ (94, 65)
    ∷ (95, 66)
    ∷ (96, 67)
    ∷ (97, 68)
    ∷ (98, 87)
    ∷ (99, 88)
    ∷ (100, 183)
    ∷ (101, 184)
    ∷ (102, 185)
    ∷ (103, 186)
    ∷ (104, 187)
    ∷ (105, 188)
    ∷ (106, 189)
    ∷ (107, 190)
    ∷ (108, 191)
    ∷ (109, 192)
    ∷ (110, 193)
    ∷ (111, 194)
    ∷ []

abbrev arrow_keys : List (CKey × ℕ)
arrow_keys = (279, 103) ∷ (81, 108) ∷ (175, 105) ∷ (262, 106) ∷ []

abbrev page_keys : List (CKey × ℕ)
page_keys = (154, 102) ∷ (83, 107) ∷ (251, 104) ∷ (250, 109) ∷ []

abbrev editing_keys : List (CKey × ℕ)
editing_keys = (85, 1) ∷ (261, 28) ∷ (275, 57) ∷ (277, 15) ∷ (43, 14) ∷ (79, 111) ∷ (163, 110) ∷ []

abbrev lock_keys : List (CKey × ℕ)
lock_keys = (56, 58) ∷ (202, 69) ∷ (268, 70) ∷ (267, 70) ∷ []

abbrev numpad_numbers : List (CKey × ℕ)
numpad_numbers =
    (203, 82)
    ∷ (204, 79)
    ∷ (205, 80)
    ∷ (206, 81)
    ∷ (207, 75)
    ∷ (208, 76)
    ∷ (209, 77)
    ∷ (210, 71)
    ∷ (211, 72)
    ∷ (212, 73)
    ∷ []

abbrev numpad_operators : List (CKey × ℕ)
numpad_operators = (39, 78) ∷ (276, 74) ∷ (190, 55) ∷ (80, 98) ∷ (78, 83) ∷ (271, 121) ∷ []

abbrev symbol_keys : List (CKey × ℕ)
symbol_keys =
    (238, 12)
    ∷ (244, 13)
    ∷ (217, 26)
    ∷ (219, 27)
    ∷ (218, 43)
    ∷ (213, 39)
    ∷ (220, 40)
    ∷ (227, 51)
    ∷ (243, 52)
    ∷ (215, 53)
    ∷ (216, 41)
    ∷ []

abbrev system_keys : List (CKey × ℕ)
system_keys = (255, 99) ∷ (252, 119) ∷ (44, 411) ∷ (41, 127) ∷ (254, 116) ∷ (274, 142) ∷ []

abbrev media_keys : List (CKey × ℕ)
media_keys =
    (283, 115)
    ∷ (281, 114)
    ∷ (282, 113)
    ∷ (284, 248)
    ∷ (183, 164)
    ∷ (186, 166)
    ∷ (182, 163)
    ∷ (184, 165)
    ∷ (181, 208)
    ∷ (185, 168)
    ∷ []

abbrev browser_keys : List (CKey × ℕ)
browser_keys =
    (48, 158) ∷ (50, 159) ∷ (52, 173) ∷ (54, 128) ∷ (53, 217) ∷ (49, 156) ∷ (51, 172) ∷ []

abbrev launch_keys : List (CKey × ℕ)
launch_keys = (169, 155) ∷ (170, 226) ∷ (167, 148) ∷ (168, 149) ∷ []

abbrev brightness_keys : List (CKey × ℕ)
brightness_keys = (47, 225) ∷ (46, 224) ∷ []

abbrev special_keys : List (CKey × ℕ)
special_keys =
    (153, 138)
    ∷ (278, 131)
    ∷ (260, 182)
    ∷ (125, 136)
    ∷ (269, 353)
    ∷ (86, 134)
    ∷ (82, 161)
    ∷ (287, 372)
    ∷ []

abbrev input_method_keys : List (CKey × ℕ)
input_method_keys =
    (165, 122) ∷ (150, 122) ∷ (151, 122) ∷ (152, 123) ∷ (166, 90) ∷ (62, 92) ∷ (200, 94) ∷ []

-- `none` is -1. The cases that return -1 are as the default.
unfoldable pub ckey_to_linux_keycode : CKey → Option ℕ
ckey_to_linux_keycode key = cases digit_keys key (
    cases letter_keys key (
      cases left_modifiers key (
        cases right_modifiers key (
          cases function_keys key (
            cases arrow_keys key (
              cases page_keys key (
                cases editing_keys key (
                  cases lock_keys key (
                    cases numpad_numbers key (
                      cases numpad_operators key (
                        cases symbol_keys key (
                          cases system_keys key (
                            cases media_keys key (
                              cases browser_keys key (
                                cases launch_keys key (
                                  cases brightness_keys key (
                                    cases special_keys key
                                      (cases input_method_keys key none))))))))))))))))))

abbrev pub enabled_keys : List ℕ
enabled_keys =
    11 ∷ 2 ∷ 3 ∷ 4 ∷ 5 ∷ 6 ∷ 7 ∷ 8 ∷ 9 ∷ 10 ∷ 30 ∷ 48 ∷ 46 ∷ 32 ∷ 18 ∷ 33 ∷ 34 ∷ 35 ∷ 23 ∷ 36 ∷ 37
    ∷ 38 ∷ 50 ∷ 49 ∷ 24 ∷ 25 ∷ 16 ∷ 19 ∷ 31 ∷ 20 ∷ 22 ∷ 47 ∷ 17 ∷ 45 ∷ 21 ∷ 44 ∷ 12 ∷ 13 ∷ 26 ∷ 27
    ∷ 43 ∷ 39 ∷ 40 ∷ 41 ∷ 51 ∷ 52 ∷ 53 ∷ 1 ∷ 59 ∷ 60 ∷ 61 ∷ 62 ∷ 63 ∷ 64 ∷ 65 ∷ 66 ∷ 67 ∷ 68 ∷ 87
    ∷ 88 ∷ 183 ∷ 184 ∷ 185 ∷ 186 ∷ 187 ∷ 188 ∷ 189 ∷ 190 ∷ 191 ∷ 192 ∷ 193 ∷ 194 ∷ 42 ∷ 54 ∷ 29 ∷ 97
    ∷ 56 ∷ 100 ∷ 125 ∷ 126 ∷ 58 ∷ 69 ∷ 70 ∷ 110 ∷ 111 ∷ 102 ∷ 107 ∷ 104 ∷ 109 ∷ 103 ∷ 108 ∷ 105
    ∷ 106 ∷ 15 ∷ 28 ∷ 57 ∷ 14 ∷ 82 ∷ 79 ∷ 80 ∷ 81 ∷ 75 ∷ 76 ∷ 77 ∷ 71 ∷ 72 ∷ 73 ∷ 78 ∷ 74 ∷ 55 ∷ 98
    ∷ 83 ∷ 96 ∷ 121 ∷ 179 ∷ 180 ∷ 210 ∷ 99 ∷ 177 ∷ 178 ∷ 119 ∷ 411 ∷ 128 ∷ 155 ∷ 172 ∷ 159 ∷ 158
    ∷ 173 ∷ 157 ∷ 140 ∷ 142 ∷ 143 ∷ 113 ∷ 114 ∷ 115 ∷ 163 ∷ 165 ∷ 164 ∷ 166 ∷ 167 ∷ 224 ∷ 225 ∷ 245
    ∷ 127 ∷ []
