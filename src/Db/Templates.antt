-- ===== src/Db/Templates.antt =====
-- db/sqlQueries.hpp: the templates of the INSERT statements.
use phud.Prelude.{Bytes, codes}

abbrev pub insert_site : Bytes
insert_site = codes "\nINSERT OR IGNORE INTO Site (siteName) VALUES ('?siteName');\n"

abbrev pub insert_game : Bytes
insert_game =
    codes
      "\nINSERT OR IGNORE INTO Game (\n  gameId, siteName, gameName, variant, limitType, isRealMoney, nbMaxSeats, startDate\n)\nVALUES (\n  '?gameId', '?siteName', '?gameName', '?variant', '?limitType', ?isRealMoney, ?nbMaxSeats, '?startDate'\n);\n"

abbrev pub insert_tournament : Bytes
insert_tournament =
    codes
      "\n    INSERT OR IGNORE INTO Tournament (tournamentId, buyIn) VALUES ('?tournamentId', ?buyIn);\n"

abbrev pub insert_cashgame : Bytes
insert_cashgame =
    codes
      "\nINSERT OR IGNORE INTO CashGame (cashGameId, smallBlind, bigBlind)\nVALUES ('?cashGameId', ?smallBlind, ?bigBlind);\n"

abbrev pub insert_tournament_hand : Bytes
insert_tournament_hand =
    codes
      "\n    INSERT OR IGNORE INTO TournamentHand (tournamentId, handId) VALUES ('?gameId', '?handId');\n"

abbrev pub insert_cashgame_hand : Bytes
insert_cashgame_hand =
    codes
      "\n    INSERT OR IGNORE INTO CashGameHand (cashGameId, handId) VALUES ('?gameId', '?handId');\n"

abbrev pub insert_hand : Bytes
insert_hand =
    codes
      "\nINSERT OR IGNORE INTO Hand (\n  handId, siteName, tableName, buttonSeat, maxSeats, ante, level, startDate,\n  heroCard1, heroCard2, heroCard3, heroCard4, heroCard5,\n  boardCard1, boardCard2, boardCard3, boardCard4, boardCard5\n)\nVALUES (\n  '?handId', '?siteName', '?tableName', ?buttonSeat, ?maxSeats, ?ante, ?level,\n  '?startDate', '?heroCard1', '?heroCard2', '?heroCard3', '?heroCard4', '?heroCard5',\n  '?boardCard1', '?boardCard2', '?boardCard3', '?boardCard4', '?boardCard5'\n);\n"

abbrev pub insert_action : Bytes
insert_action =
    codes
      "\nINSERT OR IGNORE INTO Action (\n  street, handId, playerName, actionType, actionIndex, betAmount\n)\nVALUES (\n  '?street', '?handId', '?playerName', '?actionType', ?actionIndex, ?betAmount\n);\n"

abbrev pub insert_player : Bytes
insert_player =
    codes
      "\nINSERT OR IGNORE INTO Player (playerName, siteName, isHero, comments)\nVALUES ('?playerName', '?siteName', ?isHero, '?comments');\n"

abbrev pub insert_hand_player : Bytes
insert_hand_player =
    codes
      "\nINSERT OR IGNORE INTO HandPlayer (handId, playerName, playerSeat, isWinner)\nVALUES ('?handId', '?playerName', ?playerSeat, ?isWinner);\n"
